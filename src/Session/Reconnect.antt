-- ===== src/Session/Reconnect.antt =====
-- useSessionState.ts: attempts to reconnect, their timers and their replies, and the heartbeat.
use ivena_meet.Types.{JoinResp, ReconnectResp}
use ivena_meet.Base.{
  leb, if◌then◌else◌, includes, is_empty, Text, codes, ℕ, ◌+◌, ◌-◌, Bool, true, false, not, ◌&&◌,
  ◌||◌, Option, none, some, List, [], ◌∷◌, ◌++◌, map,
}
use ivena_meet.Session.{
  connected, reconnecting, disconnected, Reason, refresh, heartbeat, manual, ok_notice,
  error_notice, clear_messages, action_notice, log_line, PendingCall, attempt_call, boot_call,
  ReconnectTimer, SessionState, emit, apply_session_connection_status, clear_reconnect_timers,
  clear_client, rejoin_session, restore,
}

abbrev reason_text : Reason → Text
reason_text refresh = codes "refresh"
reason_text heartbeat = codes "heartbeat"
reason_text manual = codes "manual"

-- `/invalid or expired app session/i`: without the `u` flag only ASCII letters fold onto an ASCII
-- pattern.
abbrev ascii_lower : ℕ → ℕ
ascii_lower c = if leb b'A' c && leb c b'Z' then c + 32 else c

unfoldable pub is_expired_error : Text → Bool
unfolding includes
is_expired_error detail = includes (map ascii_lower detail) (codes "invalid or expired app session")

-- `attemptSessionReconnect` until its request; `token` is the closure's.
unfoldable pub attempt_session_reconnect : Text → Reason → SessionState → SessionState
unfolding clear_reconnect_timers apply_session_connection_status is_empty
attempt_session_reconnect token reason s = elim s.joined_snapshot [
  | none ↦ s
  | some restored ↦
      if is_empty token || s.reconnect_in_flight
      then s
      else apply_session_connection_status reconnecting (
          clear_reconnect_timers (record s {
            reconnect_in_flight = true;
            calls = attempt_call reason restored ∷ s.calls;
          }))
]

unfoldable pub attempt_succeeded : Reason → JoinResp → ReconnectResp → SessionState → SessionState
unfolding apply_session_connection_status restore
attempt_succeeded reason restored res s = emit (action_notice ok_notice (codes "连接已恢复")) (
    emit (log_line (codes "session recovered (" ++ (reason_text reason ++ codes ")"))) (
      apply_session_connection_status connected (record s {
        joined = some (restore restored res);
        refresh_error_logged = false;
        heartbeat_error_logged = false;
        reconnect_in_flight = false;
      })))

unfoldable pub attempt_failed : Text → SessionState → SessionState
unfolding rejoin_session apply_session_connection_status is_expired_error
attempt_failed detail s =
    let down =
      apply_session_connection_status disconnected
        (emit (log_line (codes "session reconnect failed: " ++ detail)) s) in
    let rejoined = record (rejoin_session down) { reconnect_in_flight = false } in
    let told = action_notice error_notice (codes "连接恢复失败，请重新连接或重新加入") in
    if is_expired_error detail
    then rejoined
    else record (emit told down) { reconnect_in_flight = false }

unfoldable pub boot_succeeded : JoinResp → ReconnectResp → SessionState → SessionState
unfolding apply_session_connection_status restore
boot_succeeded restored res s =
    record (emit (log_line (codes "session restored after refresh")) (
      apply_session_connection_status connected
        (record s { joined = some (restore restored res) }))) { reconnect_in_flight = false }

unfoldable pub boot_failed : Text → SessionState → SessionState
unfolding apply_session_connection_status
boot_failed reason s =
    record (emit (action_notice error_notice (codes "会话已失效，请重新加入房间")) (
      emit (log_line (codes "session restore failed: " ++ reason)) (
        emit clear_messages
          (clear_client false (apply_session_connection_status disconnected s))))) {
            reconnect_in_flight = false;
          }

-- The reply to a pending call.
pub data Reply : Type 0 where
  answered : ReconnectResp → Reply
  refused : Text → Reply

unfoldable pub on_reply : PendingCall → Reply → SessionState → SessionState
unfolding attempt_succeeded attempt_failed boot_succeeded boot_failed
on_reply (attempt_call reason restored) (answered res) s = attempt_succeeded reason restored res s
on_reply (attempt_call reason restored) (refused detail) s = attempt_failed detail s
on_reply (boot_call restored) (answered res) s = boot_succeeded restored res s
on_reply (boot_call restored) (refused detail) s = boot_failed detail s

-- The answer to the call at the head of the list, which is thereby no longer pending.
unfoldable pub settle : List PendingCall → Reply → SessionState → SessionState
unfolding on_reply
settle [] reply s = s
settle (call ∷ rest) reply s = on_reply call reply (record s { calls = rest })

unfoldable pub schedule_session_reconnect : ℕ → Reason → Text → SessionState → SessionState
unfolding apply_session_connection_status is_empty
schedule_session_reconnect delay_seconds reason token s = elim s.joined_snapshot [
  | none ↦ s
  | some j ↦
      if is_empty token || s.reconnect_in_flight
      then s
      else if is_set s.reconnect_timer || s.reconnect_tick
      then s
      else record (apply_session_connection_status reconnecting s) {
        reconnect_in_seconds = delay_seconds;
        reconnect_tick = true;
        reconnect_timer = some (record { reason = reason; token = token });
      }
]
  where
    is_set : Option ReconnectTimer → Bool
    is_set none = false
    is_set (some t) = true

-- The interval that counts down.
unfoldable pub on_tick : SessionState → SessionState
on_tick s =
    if not s.reconnect_tick
    then s
    else if leb s.reconnect_in_seconds 1
    then record s { reconnect_tick = false; reconnect_in_seconds = 0 }
    else record s { reconnect_in_seconds = s.reconnect_in_seconds - 1 }

unfoldable pub on_timer : SessionState → SessionState
unfolding attempt_session_reconnect
on_timer s = elim s.reconnect_timer [
  | none ↦ s
  | some t ↦ attempt_session_reconnect t.token t.reason (record s { reconnect_timer = none })
]

unfoldable pub retry_session_recovery : SessionState → SessionState
unfolding attempt_session_reconnect clear_reconnect_timers
retry_session_recovery s =
    attempt_session_reconnect s.app_session_token manual (clear_reconnect_timers s)

unfoldable pub on_heartbeat : SessionState → SessionState
unfolding clear_reconnect_timers apply_session_connection_status
on_heartbeat s = record (apply_session_connection_status connected (clear_reconnect_timers s)) {
  heartbeat_error_logged = false;
}

-- `token` is the one that the heartbeat's effect had captured.
unfoldable pub on_heartbeat_failed : Text → Text → SessionState → SessionState
unfolding schedule_session_reconnect
on_heartbeat_failed token detail s =
    if s.heartbeat_error_logged
    then s
    else schedule_session_reconnect 3 heartbeat token (
        emit (action_notice error_notice (codes "连接异常，正在尝试恢复")) (
          emit (log_line (codes "session heartbeat failed: " ++ detail))
            (record s { heartbeat_error_logged = true })))
