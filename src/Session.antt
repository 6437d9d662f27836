-- ===== src/Session.antt =====
-- apps/frontend/src/hooks/sidebar/useSessionState.ts: the connection of a session, and how it is
-- recovered. A handler that awaits is two functions, one for the request and one for its reply;
-- an effect is a function, and timers are fields that say whether they are set.
pub mod Reconnect
pub mod Invariant
pub mod Laws
use ivena_meet.Types.{spread, JoinResp, ReconnectResp}
use ivena_meet.Base.{
  if◌then◌else◌, is_empty, Text, codes, ℕ, Bool, true, false, not, ◌||◌, Option, none, some, List,
  [], ◌∷◌, ◌++◌,
}

pub data Status : Type 0 where
  connected reconnecting disconnected : Status

pub data Reason : Type 0 where
  refresh heartbeat manual : Reason

pub data NoticeKind : Type 0 where
  ok_notice error_notice : NoticeKind

-- The calls of the functions that the hook is given, besides `setJoined`.
pub data SessionEffect : Type 0 where
  clear_client_state : Bool → Bool → SessionEffect
  clear_messages : SessionEffect
  action_notice : NoticeKind → Text → SessionEffect
  log_line : Text → SessionEffect

-- A request to `api.reconnectRoom` that has not been answered, with the session that it restores.
pub data PendingCall : Type 0 where
  attempt_call : Reason → JoinResp → PendingCall
  boot_call : JoinResp → PendingCall

-- A timer that will attempt a reconnect: the reason, and the token that its closure holds.
pub record ReconnectTimer : Type 0 where
  pub reason : Reason
  pub token : Text

pub record SessionState : Type 0 where
  pub status : Status
  pub status_ref : Status
  pub reconnect_in_seconds : ℕ
  pub initial_reconnect_checked : Bool
  pub refresh_error_logged : Bool
  pub heartbeat_error_logged : Bool
  pub reconnect_in_flight : Bool
  pub reconnect_timer : Option ReconnectTimer
  pub reconnect_tick : Bool
  pub joined_snapshot : Option JoinResp
  pub should_reconnect_on_boot : Bool
  pub boot_reconnect_attempted : Bool
  pub joined : Option JoinResp
  pub app_session_token : Text
  pub is_host_view : Bool
  pub calls : List PendingCall
  pub effects : List SessionEffect

abbrev pub emit : SessionEffect → SessionState → SessionState
emit e s = record s { effects = s.effects ++ e ∷ [] }

unfoldable pub apply_session_connection_status : Status → SessionState → SessionState
apply_session_connection_status next s = record s { status = next; status_ref = next }

unfoldable pub clear_reconnect_timers : SessionState → SessionState
clear_reconnect_timers s = record s {
  reconnect_timer = none;
  reconnect_tick = false;
  reconnect_in_seconds = 0;
}

-- `clearClientState`, as far as the hook sees it: the parent forgets the session.
abbrev pub clear_client : Bool → SessionState → SessionState
clear_client clear_host_totp s =
    emit (clear_client_state clear_host_totp true)
      (record s { joined = none; app_session_token = [] })

unfoldable pub rejoin_session : SessionState → SessionState
unfolding clear_reconnect_timers apply_session_connection_status
rejoin_session s = emit (action_notice error_notice (codes "会话不可用，请重新加入房间")) (
    emit clear_messages (
      clear_client s.is_host_view
        (apply_session_connection_status disconnected (clear_reconnect_timers s))))

-- `{ ...restored, ...res }`
unfoldable pub restore : JoinResp → ReconnectResp → JoinResp
restore restored res = record restored {
  lk_url = res.lk_url;
  token = res.token;
  expires_in_seconds = res.expires_in_seconds;
  role = res.role;
  camera_allowed = res.camera_allowed;
  screen_share_allowed = res.screen_share_allowed;
  camera_expires_at = spread restored.camera_expires_at res.camera_expires_at;
  screen_share_expires_at = spread restored.screen_share_expires_at res.screen_share_expires_at;
}

-- The effect on `joined` and `appSessionToken`.
unfoldable pub sync_props : SessionState → SessionState
unfolding clear_reconnect_timers apply_session_connection_status is_empty
sync_props s =
    let seen = record s { joined_snapshot = s.joined } in
    let cleared =
      record (apply_session_connection_status disconnected (clear_reconnect_timers seen)) {
        refresh_error_logged = false;
        heartbeat_error_logged = false;
      } in
    elim s.joined [
      | none ↦ cleared
      | some j ↦ if is_empty s.app_session_token then cleared else (elim s.status_ref [
        | disconnected ↦ apply_session_connection_status connected seen
        | connected ↦ seen
        | reconnecting ↦ seen
      ])
    ]

-- The effect that restores a stored session once, after the page is loaded.
unfoldable pub boot_effect : SessionState → SessionState
unfolding apply_session_connection_status
boot_effect s =
    if s.initial_reconnect_checked
    then s
    else if not s.should_reconnect_on_boot || s.boot_reconnect_attempted
    then record s { initial_reconnect_checked = true }
    else (elim s.joined [
      | none ↦ s
      | some restored ↦
          if s.reconnect_in_flight
          then s
          else apply_session_connection_status reconnecting (record s {
            initial_reconnect_checked = true;
            reconnect_in_flight = true;
            boot_reconnect_attempted = true;
            calls = boot_call restored ∷ s.calls;
          })
    ])

-- A render in which the parent hands down a session and a token, and the two effects after it.
unfoldable pub on_commit : Option JoinResp → Text → SessionState → SessionState
unfolding sync_props boot_effect
on_commit joined token s =
    boot_effect (sync_props (record s { joined = joined; app_session_token = token }))
