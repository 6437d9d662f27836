-- ===== src/Session/Laws.antt =====
-- useSessionState.ts: the hook from the first render on, and what a reply does after the user left.
use ivena_meet.Types.{JoinResp, ReconnectResp}
use ivena_meet.Base.{
  is_empty, Text, ◌≡◌, Bool, true, false, ◌&&◌, Option, none, some, List, [], ◌∷◌, arith,
}
use ivena_meet.Session.{
  connected, disconnected, Reason, attempt_call, SessionState, apply_session_connection_status,
  clear_reconnect_timers, rejoin_session, restore, sync_props, boot_effect, on_commit,
}
use ivena_meet.Session.Reconnect.{
  is_expired_error, attempt_succeeded, attempt_failed, answered, refused, on_reply, settle,
}
use ivena_meet.Session.Invariant.{IsSound, SessionEvent, session_run, session_run-IsSound}

-- The state after the first render: `stored` says whether a session and a token lie in the local
-- storage, `attempted` whether an earlier instance of the hook has reconnected at boot.
unfoldable pub mount : Bool → Bool → Bool → Bool → Option JoinResp → Text → SessionState
unfolding on_commit
mount enable_boot_reconnect stored attempted host_view joined token =
    on_commit joined token (record {
      status = disconnected;
      status_ref = disconnected;
      reconnect_in_seconds = 0;
      initial_reconnect_checked = false;
      refresh_error_logged = false;
      heartbeat_error_logged = false;
      reconnect_in_flight = false;
      reconnect_timer = none;
      reconnect_tick = false;
      joined_snapshot = joined;
      should_reconnect_on_boot = enable_boot_reconnect && stored;
      boot_reconnect_attempted = attempted;
      joined = joined;
      app_session_token = token;
      is_host_view = host_view;
      calls = [];
      effects = [];
    })

mount-IsSound :
    (enable stored attempted host_view : Bool) (joined : Option JoinResp) (token : Text)
    → IsSound (mount enable stored attempted host_view joined token)
unfolding mount on_commit sync_props boot_effect clear_reconnect_timers
    apply_session_connection_status is_empty
mount-IsSound enable stored attempted host_view none token = ground arith
mount-IsSound enable stored attempted host_view (some j) [] = ground arith
mount-IsSound enable stored attempted host_view (some j) (c ∷ token) = ground arith

-- From the first render on, whatever happens, a heartbeat being answered in the render that sent it:
-- the shown status is the one that the handlers read,
-- at most one reconnect request runs, the countdown is 0 unless it ticks and never exceeds 3, and
-- the hook says that it reconnects only while a request runs or a timer will start one.
pub session_run-mount-IsSound :
    (enable stored attempted host_view : Bool) (joined : Option JoinResp) (token : Text)
    (es : List SessionEvent)
    → IsSound (session_run (mount enable stored attempted host_view joined token) es)
session_run-mount-IsSound enable stored attempted host_view joined token es =
    session_run-IsSound _ es (mount-IsSound enable stored attempted host_view joined token)

-- In a sound state, a refusal of a running attempt that names an expired session ends it: the
-- parent forgets the session and its token, no timer and no request is left, and the status is
-- disconnected.
pub attempt_expired :
    (s : SessionState) (reason : Reason) (restored : JoinResp) (detail : Text)
    → IsSound s
    → s.calls ≡ attempt_call reason restored ∷ []
    → is_expired_error detail ≡ true
    → let t = settle s.calls (refused detail) s in
      (t.joined ≡ none)
      × (t.app_session_token ≡ [])
      × (t.status ≡ disconnected)
      × (t.calls ≡ [])
      × (t.reconnect_in_flight ≡ false)
      × (t.reconnect_timer ≡ none)
      × (t.reconnect_tick ≡ false)
unfolding settle on_reply attempt_failed rejoin_session clear_reconnect_timers
    apply_session_connection_status
attempt_expired s reason restored detail v e h = rw (e, h) (ground (arith, e, h))

-- A user who leaves while a reconnect request runs, after the first check, is put back into the room
-- by its answer: the session is set again, though its token is gone.
pub late_reply_rejoins :
    (s : SessionState) (reason : Reason) (restored : JoinResp) (res : ReconnectResp)
    → s.calls ≡ attempt_call reason restored ∷ []
    → s.initial_reconnect_checked ≡ true
    → let left = on_commit none [] s in
      let t = settle left.calls (answered res) left in
      (left.joined ≡ none)
      × (t.joined ≡ some (restore restored res))
      × (t.status ≡ connected)
      × (t.app_session_token ≡ [])
unfolding on_commit sync_props boot_effect clear_reconnect_timers settle on_reply attempt_succeeded
    apply_session_connection_status
late_reply_rejoins s reason restored res e h = ground arith
