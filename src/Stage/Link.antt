-- ===== src/Stage/Link.antt =====
-- MainStage.tsx: the connection to the LiveKit room, and what it tells the layout.
pub mod Recovery
use ivena_meet.Base.{
  leb, if◌then◌else◌, trim, includes, is_empty, Text, codes, ◌+◌, Bool, true, false, ◌&&◌, ◌||◌,
  List, [], ◌∷◌, ◌++◌, map,
}
use ivena_meet.Types.{MemberItem}

-- `roomIdRef` and `userNameRef` follow the props; `issues` are the calls of
-- `onSignalConnectionIssue`.
pub record Link : Type 0 where
  pub signal_failure : Bool
  pub room_id : Text
  pub user_name : Text
  pub issues : List Text
  pub logs : List Text

abbrev log_link : Text → Link → Link
log_link line s = record s { logs = s.logs ++ line ∷ [] }

abbrev tell_issue : Text → Link → Link
tell_issue reason s = record s { issues = s.issues ++ reason ∷ [] }

unfoldable pub handle_connected : Link → Link
handle_connected s =
    log_link (codes "livekit connected: " ++ (s.room_id ++ (codes " as " ++ s.user_name)))
      (record s { signal_failure = false })

unfoldable pub handle_disconnected : Link → Link
handle_disconnected s =
    let told = log_link (codes "livekit disconnected") s in
    if s.signal_failure
    then tell_issue (codes "disconnected_after_signal_error")
        (record told { signal_failure = false })
    else told

-- The patterns are ASCII, and no other letter becomes one of theirs in a place that matters.
abbrev ascii_lower_case : Text → Text
ascii_lower_case s = map (λ c. if leb b'A' c && leb c b'Z' then c + 32 else c) s

unfoldable pub is_signal_issue : Text → Bool
unfolding includes
is_signal_issue message =
    let lowered = ascii_lower_case message in
    includes lowered (codes "could not establish signal connection")
    || (includes lowered (codes "failed to fetch") || includes lowered (codes "signal connection"))

unfoldable pub handle_error : Text → Link → Link
unfolding is_signal_issue
handle_error message s =
    let told = log_link (codes "livekit error: " ++ message) s in
    if is_signal_issue message
    then tell_issue message (record told { signal_failure = true })
    else told

-- The one member that is shown while the connection is switched off for debugging.
unfoldable pub debug_members : Text → List MemberItem
unfolding is_empty
debug_members user_name =
    let name = trim user_name in
    record {
      identity = if is_empty name then codes "debug_user" else name;
      is_local = true;
      speaking = false;
      mic_enabled = false;
      camera_enabled = false;
      screen_share_enabled = false;
    }
    ∷ []
