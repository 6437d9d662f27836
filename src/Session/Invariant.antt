-- ===== src/Session/Invariant.antt =====
-- useSessionState.ts: what holds after any sequence of renders, timers, heartbeats and replies.
use ivena_meet.Types.{JoinResp}
use ivena_meet.Base.{
  if◌then◌else◌, Bool-cases, length, is_empty, Text, ◌≤◌, ◌≡◌, refl, ap, ◌≢◌, ◌⊎◌, inl, inr, Bool,
  true, false, Option, none, some, List, [], ◌∷◌, arith,
}
use ivena_meet.Session.{
  reconnecting, heartbeat, SessionEffect, PendingCall, attempt_call, boot_call, ReconnectTimer,
  SessionState, apply_session_connection_status, clear_reconnect_timers, rejoin_session, sync_props,
  boot_effect, on_commit,
}
use ivena_meet.Session.Reconnect.{
  attempt_session_reconnect, attempt_succeeded, attempt_failed, boot_succeeded, boot_failed, Reply,
  answered, refused, on_reply, settle, schedule_session_reconnect, on_tick, on_timer,
  retry_session_recovery, on_heartbeat, on_heartbeat_failed,
}

-- A timer that is set holds a token, for a session that is there, and no request is running.
abbrev pub Armed : Option ReconnectTimer → Option JoinResp → Bool → Type 0
Armed none joined in_flight = Unit
Armed (some t) joined in_flight = (t.token ≢ []) × (joined ≢ none) × (in_flight ≡ false)

pub record IsSound (s : SessionState) : Type 0 where
  pub agree : s.status_ref ≡ s.status
  pub single : length s.calls ≡ (if s.reconnect_in_flight then 1 else 0)
  pub countdown : s.reconnect_tick ≡ false → s.reconnect_in_seconds ≡ 0
  pub short : s.reconnect_in_seconds ≤ 3
  pub armed : Armed s.reconnect_timer s.joined_snapshot s.reconnect_in_flight
  pub fresh :
      s.initial_reconnect_checked ≡ false
      → (s.joined_snapshot ≡ none) × (s.reconnect_in_flight ≡ false) × (s.reconnect_timer ≡ none)
  pub live :
      s.status ≡ reconnecting
      → (s.reconnect_in_flight ≡ true) ⊎ ((s.reconnect_timer ≢ none) × (s.app_session_token ≢ []))

-- What can happen to the hook. A heartbeat is answered in the render that sent it.
pub data SessionEvent : Type 0 where
  commit : Option JoinResp → Text → SessionEvent
  reply : Reply → SessionEvent
  tick : SessionEvent
  timer : SessionEvent
  retry : SessionEvent
  rejoin : SessionEvent
  beat : SessionEvent
  beat_failed : Text → SessionEvent

pub session_step : SessionState → SessionEvent → SessionState
session_step s (commit joined token) = on_commit joined token s
session_step s (reply r) = settle s.calls r s
session_step s tick = on_tick s
session_step s timer = on_timer s
session_step s retry = retry_session_recovery s
session_step s rejoin = rejoin_session s
session_step s beat = on_heartbeat s
session_step s (beat_failed detail) = on_heartbeat_failed s.app_session_token detail s

pub session_run : SessionState → List SessionEvent → SessionState
session_run s [] = s
session_run s (e ∷ es) = session_run (session_step s e) es

on_tick-IsSound : (s : SessionState) → IsSound s → IsSound (on_tick s)
unfolding on_tick
on_tick-IsSound s v = ground arith

rejoin_session-IsSound : (s : SessionState) → IsSound s → IsSound (rejoin_session s)
unfolding rejoin_session clear_reconnect_timers apply_session_connection_status
rejoin_session-IsSound s v = ground arith

on_heartbeat-IsSound : (s : SessionState) → IsSound s → IsSound (on_heartbeat s)
unfolding on_heartbeat clear_reconnect_timers apply_session_connection_status
on_heartbeat-IsSound s v = ground arith

schedule-IsSound :
    (s : SessionState)
    → IsSound s
    → IsSound (schedule_session_reconnect 3 heartbeat s.app_session_token s)
unfolding schedule_session_reconnect apply_session_connection_status is_empty
schedule-IsSound s v = ground arith

-- The marks on logged errors and the calls of the parent are no part of the invariant.
logged-IsSound :
    (s : SessionState) (es : List SessionEffect)
    → IsSound s
    → IsSound (record s { heartbeat_error_logged = true; effects = es })
logged-IsSound s es v = record {
  agree = v.agree;
  single = v.single;
  countdown = v.countdown;
  short = v.short;
  armed = v.armed;
  fresh = v.fresh;
  live = v.live;
}

on_commit-IsSound :
    (joined : Option JoinResp) (token : Text) (s : SessionState)
    → IsSound s
    → IsSound (on_commit joined token s)
unfolding on_commit sync_props boot_effect clear_reconnect_timers apply_session_connection_status
    is_empty
on_commit-IsSound none token s v = ground arith
on_commit-IsSound (some j) [] s v = ground arith
on_commit-IsSound (some j) (c ∷ token) s v = ground arith

attempt_failed-IsSound :
    (s : SessionState) (detail : Text) (call : PendingCall)
    → IsSound s
    → s.calls ≡ call ∷ []
    → IsSound (attempt_failed detail (record s { calls = [] }))
unfolding attempt_failed rejoin_session clear_reconnect_timers apply_session_connection_status
attempt_failed-IsSound s detail call v e = ground arith

on_reply-IsSound :
    (s : SessionState) (call : PendingCall) (r : Reply)
    → IsSound s
    → s.calls ≡ call ∷ []
    → IsSound (on_reply call r (record s { calls = [] }))
unfolding on_reply attempt_succeeded boot_succeeded boot_failed apply_session_connection_status
on_reply-IsSound s (attempt_call reason restored) (answered res) v e = ground arith
on_reply-IsSound s (attempt_call reason restored) (refused detail) v e =
    attempt_failed-IsSound s detail (attempt_call reason restored) v e
on_reply-IsSound s (boot_call restored) (answered res) v e = ground arith
on_reply-IsSound s (boot_call restored) (refused detail) v e = ground arith

settle-IsSound :
    (s : SessionState) (cs : List PendingCall) (r : Reply)
    → IsSound s
    → s.calls ≡ cs
    → IsSound (settle cs r s)
unfolding settle
settle-IsSound s [] r v e = v
settle-IsSound s (call ∷ []) r v e = on_reply-IsSound s call r v e
settle-IsSound s (call ∷ other ∷ rest) r v e = absurd (ground (arith, ap length e))

on_timer-IsSound : (s : SessionState) → IsSound s → IsSound (on_timer s)
unfolding on_timer attempt_session_reconnect clear_reconnect_timers apply_session_connection_status
    is_empty
on_timer-IsSound s v = ground arith

retry-IsSound : (s : SessionState) → IsSound s → IsSound (retry_session_recovery s)
unfolding retry_session_recovery attempt_session_reconnect clear_reconnect_timers
    apply_session_connection_status is_empty
retry-IsSound s v = ground arith

on_heartbeat_failed-IsSound :
    (detail : Text) (s : SessionState)
    → IsSound s
    → IsSound (on_heartbeat_failed s.app_session_token detail s)
unfolding on_heartbeat_failed
on_heartbeat_failed-IsSound detail s v = elim (Bool-cases s.heartbeat_error_logged) [
  | inl e ↦ simp e v
  | inr e ↦ simp e (schedule-IsSound _ (logged-IsSound s _ v))
]

session_step-IsSound :
    (s : SessionState) (e : SessionEvent) → IsSound s → IsSound (session_step s e)
unfolding session_step
session_step-IsSound s (commit joined token) v = on_commit-IsSound joined token s v
session_step-IsSound s (reply r) v = settle-IsSound s s.calls r v refl
session_step-IsSound s tick v = on_tick-IsSound s v
session_step-IsSound s timer v = on_timer-IsSound s v
session_step-IsSound s retry v = retry-IsSound s v
session_step-IsSound s rejoin v = rejoin_session-IsSound s v
session_step-IsSound s beat v = on_heartbeat-IsSound s v
session_step-IsSound s (beat_failed detail) v = on_heartbeat_failed-IsSound detail s v

pub session_run-IsSound :
    (s : SessionState) (es : List SessionEvent) → IsSound s → IsSound (session_run s es)
unfolding session_run
session_run-IsSound s [] v = v
session_run-IsSound s (e ∷ es) v =
    session_run-IsSound (session_step s e) es (session_step-IsSound s e v)
