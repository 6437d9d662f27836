-- ===== src/Tests/Side.antt =====
-- The side bar: its timeline.
use ivena_meet.Base.{
  text_eq, is_space, Text, codes, text_eq_iff, ◌≤◌, ◌≡◌, refl, Bool, true, false, some, List, [],
  ◌∷◌, ◌++◌, arith,
}
use ivena_meet.Types.{camera, null, MuteResp, SetMemberMediaPermissionResp, MemberItem}
use ivena_meet.Sidebar.{
  append_timeline, append_items, Snapshot, find_switches, set_switches, switches_of, snapshot_of,
  came, went, mic_turned, member_changes, changes_of, departures, Timeline, members_effect,
}
use ivena_meet.Tests.Room.{test_env, inside}
use ivena_meet.Sidebar.LogLines.Hooks.{pushed, added, logs_effect-moderation}
use ivena_meet.Sidebar.Snapshots.{count_member}
use ivena_meet.Sidebar.Reading.{known, read_items}
use ivena_meet.Sidebar.Replay.{read_items-members_effect}
use ivena_meet.Sidebar.LogLines.{moderated, permission_text, logs_effect}
use ivena_meet.Layout.Permission.{stage_permission_line}
use ivena_meet.Room.Moderation.{told_mute_all, told_mute_one, told_permission}

abbrev test_member : Text → Bool → MemberItem
test_member name mic = record {
  identity = name;
  is_local = false;
  speaking = false;
  mic_enabled = mic;
  camera_enabled = false;
  screen_share_enabled = false;
}

abbrev test_members : List MemberItem
test_members = test_member (codes "bob") true ∷ test_member (codes "eve") false ∷ []

abbrev test_snapshot : Snapshot
test_snapshot =
    (codes "ada", switches_of (test_member (codes "ada") true))
    ∷ (codes "bob", switches_of (test_member (codes "bob") false))
    ∷ []

different : (k : Text) → count_member k test_members ≤ 1
different k = ground (arith, text_eq_iff (codes "bob") k, text_eq_iff (codes "eve") k)

abbrev test_timeline : Timeline
test_timeline = record {
  items = [];
  snapshot = test_snapshot;
  snapshot_ready = true;
  last_log_index = 0;
  last_ingress_id = [];
}

read_items-members_effect_example :
    let after = members_effect true test_members test_timeline in
    (read_items
        (codes "bob")
        after.items
        (some (known (switches_of (test_member (codes "bob") false))))
      ≡ some (known (switches_of (test_member (codes "bob") true))))
    × (find_switches (codes "bob") after.snapshot
        ≡ some (switches_of (test_member (codes "bob") true)))
unfolding members_effect append_items append_timeline changes_of departures snapshot_of set_switches
    find_switches member_changes text_eq
read_items-members_effect_example =
    read_items-members_effect (codes "bob") test_members test_timeline _ different refl
      (omega arith) refl

-- Eve comes, Bob's microphone goes on and Ada leaves.
test_changes :
    changes_of test_snapshot test_members ++ departures test_snapshot (snapshot_of test_members [])
    ≡ mic_turned (codes "bob") true ∷ came (codes "eve") ∷ went (codes "ada") ∷ []
unfolding changes_of departures snapshot_of set_switches find_switches member_changes text_eq
test_changes = refl

abbrev test_reply : SetMemberMediaPermissionResp
test_reply = record {
  affected_tracks = 0;
  camera_allowed = true;
  screen_share_allowed = false;
  camera_expires_at = null;
  screen_share_expires_at = null;
}

abbrev test_mute : MuteResp
test_mute = record { affected_tracks = 1 }

logs_effect-moderation_example :
    let items = λ (lines : List Text).
      (logs_effect true (pushed 400 (codes "12:00:00") [] lines) test_timeline).items in
    let tells = λ (text : Text). append_timeline (moderated text) [] in
    (items (added inside (told_mute_one test_env (codes "bob") true test_mute inside))
      ≡ tells (codes "主持人静音 " ++ codes "bob"))
    × (items (added inside (told_mute_all test_env true test_mute inside))
        ≡ tells (codes "主持人开启全员静音"))
    × (items (added inside (told_permission test_env (codes "bob") camera true test_reply inside))
        ≡ tells (permission_text (codes "允许") (codes "摄像头") (codes "bob")))
    × (items (stage_permission_line (codes "bob") camera true test_reply ∷ []) ≡ [])
unfolding is_space
logs_effect-moderation_example =
    logs_effect-moderation test_env inside test_timeline [] 400 (codes "12:00:00") (codes "bob")
      true camera test_mute test_reply (ground arith) (ground arith) refl (omega arith)
