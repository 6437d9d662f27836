-- ===== src/World.antt =====
-- The state that the hooks of the side bar share: what Layout.tsx hands down, the hooks' own
-- `useState` fields and refs, the local storage, and the requests sent so far.
pub mod Effect
pub mod Env
use ivena_meet.Types.{Role, JoinResp, InviteListItem, MessageItem}
use ivena_meet.Base.{Text, ℕ, Bool, Option, List}
use ivena_meet.Storage.{Storage}
use ivena_meet.Session.{NoticeKind, action_notice}
use ivena_meet.Chat.View.{ChatView}
use ivena_meet.Api.Client.{HttpRequest}

pub data AvatarKind : Type 0 where
  idle_avatar ok_avatar error_avatar : AvatarKind

-- The state of useAvatarState.ts; `revoked` are the object addresses that were given back.
pub record AvatarState : Type 0 where
  pub avatar_preview : Text
  pub avatar_upload_data : Text
  pub avatar_preview_blob : Text
  pub avatar_kind : AvatarKind
  pub avatar_text : Text
  pub avatar_editor_open : Bool
  pub revoked : List Text

-- The state of useRoomState.ts.
pub record RoomState : Type 0 where
  pub invite_code : Text
  pub invite_ticket : Text
  pub redeem_token : Text
  pub host_totp_code : Text
  pub invite_copied : Bool
  pub session_expire_at : ℕ
  pub host_session_expire_at : ℕ
  pub ingress_id : Text
  pub whip_url : Text
  pub stream_key : Text
  pub show_broadcast_modal : Bool
  pub joining : Bool
  pub reclaiming : Bool
  pub show_reclaim_cta : Bool
  pub action_notice : Option (NoticeKind × Text)
  pub host_entry_unlocked : Bool
  pub invite_items : List InviteListItem
  pub invite_list_loading : Bool

-- A request with the Authorization header that it went out with.
pub record Call : Type 0 where
  pub request : HttpRequest
  pub authorized : Option Text

pub record World : Type 0 where
  pub require_invite : Bool
  pub room_id : Text
  pub user_name : Text
  pub role : Role
  pub joined : Option JoinResp
  pub app_session_token : Text
  pub host_session_token : Text
  pub messages : List MessageItem
  pub logs : List Text
  pub storage : Storage
  pub avatar : AvatarState
  pub chat_view : ChatView
  pub room : RoomState
  pub clipboard : Text
  pub address : Text
  pub calls : List Call
