-- ===== src/Tests/Session.antt =====
-- Runs of the session's connection.
use ivena_meet.Base.{
  starts_with, includes, codes, ◌≡◌, refl, inl, true, false, none, some, List, [], ◌∷◌, arith,
}
use ivena_meet.Tests.{test_session, test_reconnect}
use ivena_meet.Session.{
  connected, reconnecting, disconnected, heartbeat, attempt_call, SessionState, restore, on_commit,
}
use ivena_meet.Session.Reconnect.{is_expired_error, answered, refused, settle}
use ivena_meet.Session.Invariant.{IsSound, SessionEvent, reply, tick, timer, session_run}
use ivena_meet.Session.Laws.{mount, session_run-mount-IsSound, attempt_expired, late_reply_rejoins}

-- A reload with a stored session, whose first reconnect fails; the timer ticks and fires.
abbrev test_run : List SessionEvent
test_run = reply (refused (codes "offline")) ∷ tick ∷ tick ∷ tick ∷ timer ∷ []

session_run-mount-IsSound_example :
    IsSound (session_run (mount true true false true (some test_session) (codes "a")) test_run)
session_run-mount-IsSound_example =
    session_run-mount-IsSound true true false true (some test_session) (codes "a") test_run

-- A session whose reconnect request runs.
abbrev waiting_session : SessionState
waiting_session = record {
  status = reconnecting;
  status_ref = reconnecting;
  reconnect_in_seconds = 0;
  initial_reconnect_checked = true;
  refresh_error_logged = false;
  heartbeat_error_logged = false;
  reconnect_in_flight = true;
  reconnect_timer = none;
  reconnect_tick = false;
  joined_snapshot = some test_session;
  should_reconnect_on_boot = false;
  boot_reconnect_attempted = true;
  joined = some test_session;
  app_session_token = codes "a";
  is_host_view = true;
  calls = attempt_call heartbeat test_session ∷ [];
  effects = [];
}

waiting-IsSound : IsSound waiting_session
waiting-IsSound = record {
  agree = refl;
  single = refl;
  countdown = λ h. refl;
  short = omega arith;
  armed = tt;
  fresh = λ h. ground (arith, h);
  live = λ h. inl refl;
}

expired_detail : is_expired_error (codes "Invalid or expired app session") ≡ true
unfolding is_expired_error includes starts_with
expired_detail = refl

attempt_expired_example :
    let t =
      settle waiting_session.calls
        (refused (codes "Invalid or expired app session"))
        waiting_session in
    (t.joined ≡ none)
    × (t.app_session_token ≡ [])
    × (t.status ≡ disconnected)
    × (t.calls ≡ [])
    × (t.reconnect_in_flight ≡ false)
    × (t.reconnect_timer ≡ none)
    × (t.reconnect_tick ≡ false)
attempt_expired_example =
    attempt_expired waiting_session heartbeat test_session (codes "Invalid or expired app session")
      waiting-IsSound refl expired_detail

late_reply_rejoins_example :
    let left = on_commit none [] waiting_session in
    let t = settle left.calls (answered test_reconnect) left in
    (left.joined ≡ none)
    × (t.joined ≡ some (restore test_session test_reconnect))
    × (t.status ≡ connected)
    × (t.app_session_token ≡ [])
late_reply_rejoins_example =
    late_reply_rejoins waiting_session heartbeat test_session test_reconnect refl refl
