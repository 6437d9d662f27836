-- ===== src/Room.antt =====
-- apps/frontend/src/hooks/sidebar/useRoomState.ts: the room as its host or a member handles it.
-- The first argument of a handler is the world that its render captured.
pub mod Urls
pub mod Leave
pub mod Enter
pub mod Join
pub mod Invites
pub mod Broadcast
pub mod Moderation
pub mod Retry
pub mod Leaving
pub mod Gate
pub mod Listing
pub mod CanJoin
pub mod Hints
pub mod Joined
use ivena_meet.Types.{Role, host, member, is_host}
use ivena_meet.Base.{if◌then◌else◌, is_empty, Text, codes, Bool, false, not, ◌&&◌, none, some, []}
use ivena_meet.Session.{NoticeKind, action_notice}
use ivena_meet.Storage.{Storage, erase_item}
use ivena_meet.World.{World}
use ivena_meet.World.Effect.{update_room}
use ivena_meet.Avatar.Sync.{is_joined}

unfoldable pub invite_mode : World → Bool
unfolding is_empty
invite_mode w = not (is_empty w.room.invite_ticket)

unfoldable pub effective_role : World → Role
unfolding invite_mode
effective_role w =
    if w.room.host_entry_unlocked then host else if invite_mode w then member else w.role

unfoldable pub show_invite_gate : World → Bool
unfolding invite_mode
show_invite_gate w =
    w.require_invite
    && (not (is_joined w.joined) && (not (invite_mode w) && not w.room.host_entry_unlocked))

-- `(joined?.role ?? effectiveRole) === "host"`
unfoldable pub is_host_world : World → Bool
unfolding effective_role
is_host_world w = elim w.joined [ none ↦ is_host (effective_role w) | some j ↦ is_host j.role ]

-- The timer that hides a notice is left out: a notice stays until the next.
abbrev pub show_action_notice : NoticeKind → Text → World → World
show_action_notice kind text = update_room (λ r. record r { action_notice = some (kind, text) })

-- The effect on the role.
unfoldable pub hide_reclaim_cta : World → World
unfolding effective_role
hide_reclaim_cta w =
    if not (is_host (effective_role w)) && w.room.show_reclaim_cta
    then update_room (λ r. record r { show_reclaim_cta = false }) w
    else w

-- The effect on the first render, with the parameters of the page's address.
unfoldable pub read_invite : Text → Text → World → World
unfolding is_empty
read_invite room ticket w =
    let named = if is_empty room then w else record w { room_id = room } in
    if is_empty ticket
    then named
    else update_room (λ r. record r { invite_ticket = ticket; host_entry_unlocked = false })
        (record named { role = member })

abbrev pub clear_broadcast : World → World
clear_broadcast = update_room (λ r. record r { ingress_id = []; whip_url = []; stream_key = [] })

-- The keys of the local storage.
abbrev pub joined_key : Text
joined_key = codes "ivena.meet.joined"

abbrev pub app_session_key : Text
app_session_key = codes "ivena.meet.app_session_token"

abbrev pub host_session_key : Text
host_session_key = codes "ivena.meet.host_session_token"

-- The three calls of `localStorage.removeItem`. The storage is open here: Layout.tsx has read it
-- outside of any `try` before.
unfoldable pub forget_stored : Storage → Storage
unfolding erase_item
forget_stored s = record s {
  items = erase_item host_session_key (erase_item app_session_key (erase_item joined_key s.items));
}

unfoldable pub clear_client_world : Bool → Bool → World → World
unfolding forget_stored
clear_client_world clear_host_totp also_messages w = record w {
  joined = none;
  app_session_token = [];
  host_session_token = [];
  messages = if also_messages then [] else w.messages;
  storage = forget_stored w.storage;
  room = record w.room {
    host_totp_code = if clear_host_totp then [] else w.room.host_totp_code;
    host_session_expire_at = 0;
    session_expire_at = 0;
    show_reclaim_cta = false;
    ingress_id = [];
    whip_url = [];
    stream_key = [];
    invite_items = [];
    invite_list_loading = false;
    show_broadcast_modal = false;
  };
}
