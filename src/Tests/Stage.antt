-- ===== src/Tests/Stage.antt =====
-- The stage: what travels between a member and a host.
use ivena_meet.Base.{
  text_eq, is_empty, Text, codes, pos, ℕ, ◌≡◌, refl, ap, true, false, ◌||◌, some, List, [], ◌∷◌,
  ◌++◌, arith,
}
use ivena_meet.Types.{
  host, member, camera, StageRequestPayload, StageDecisionPayload, stage_request, stage_decision,
}
use ivena_meet.Tests.Bytes.{test_codec}
use ivena_meet.Stage.Parse.{parse_stage_control, write_stage_control, parse-write_stage_control}
use ivena_meet.Stage.Scene.{
  flag_of, LocalParticipant, SceneProps, permission_change, Scene, mount_scene, on_stage_decision,
  on_stage_control, stage_control_topic, on_data,
}
use ivena_meet.Stage.Scene.Events.{SceneEvent, received, decision_published, scene_step, scene_run}
use ivena_meet.Stage.Scene.Requests.{count_request, RequestsFit, scene_run-RequestsFit}
use mathlib.Core.List.{Memᴰ}
use ivena_meet.Stage.Scene.Exchange.{
  Meeting, request_bytes, answer_bytes, asked_events, answered_events, exchange_lem,
}
use ivena_meet.Stage.Scene.Grants.{Approves, scene_run-Approves}

abbrev test_request : StageRequestPayload
test_request = record {
  room_id = codes "r1";
  request_id = codes "q1";
  target_user = codes "bob";
  feature = camera;
  created_at = pos 100;
}

abbrev test_approval : StageDecisionPayload
test_approval = record {
  room_id = codes "r1";
  request_id = codes "q1";
  target_user = codes "bob";
  feature = camera;
  approved = true;
  decided_by = codes "ada";
  created_at = pos 101;
}

parse-write_stage_control_example :
    parse_stage_control test_codec (write_stage_control test_codec (stage_decision test_approval))
    ≡ some (stage_decision test_approval)
parse-write_stage_control_example =
    parse-write_stage_control test_codec (stage_decision test_approval)

abbrev local_one : Text → LocalParticipant
local_one name = record {
  identity = name;
  microphone_on = false;
  camera_on = false;
  screen_share_on = false;
}

abbrev host_props : SceneProps
host_props = record {
  role = host;
  room_id = codes "r1";
  initial_camera_allowed = true;
  initial_screen_share_allowed = true;
  local_participant = some (local_one (codes "ada"));
  has_ingress_participant = false;
}

abbrev member_props : SceneProps
member_props = record {
  role = member;
  room_id = codes "r1";
  initial_camera_allowed = false;
  initial_screen_share_allowed = true;
  local_participant = some (local_one (codes "bob"));
  has_ingress_participant = false;
}

abbrev request_arrives : SceneEvent
request_arrives =
    received (write_stage_control test_codec (stage_request test_request))
      (some (codes "stage.control.v1"))

abbrev approval_arrives : SceneEvent
approval_arrives =
    received (write_stage_control test_codec (stage_decision test_approval))
      (some (codes "stage.control.v1"))

-- A request comes twice, and is answered.
abbrev host_events : List SceneEvent
host_events =
    request_arrives ∷ request_arrives ∷ decision_published test_request true ∷ request_arrives ∷ []

scene_run-RequestsFit_example :
    RequestsFit
      (codes "r1")
      (scene_run test_codec host_props (mount_scene host_props) host_events).host_stage_requests
scene_run-RequestsFit_example =
    scene_run-RequestsFit test_codec host_props (mount_scene host_props) host_events
      (unfold mount_scene in (record { few = omega arith; single = λ id. omega arith; here = tt }))

-- The host's approval has come, and the member may use the camera.
approved_camera :
    flag_of camera
      (scene_run test_codec member_props
        (mount_scene member_props)
        (approval_arrives ∷ [])).stage_permission
    ≡ true
unfolding scene_run scene_step on_data on_stage_control on_stage_decision text_eq
approved_camera =
    ap
      (λ c.
        flag_of camera
          (on_stage_control member_props c (mount_scene member_props)).stage_permission)
      (parse-write_stage_control test_codec (stage_decision test_approval))

scene_run-Approves_example :
    (e : SceneEvent) × Memᴰ e (approval_arrives ∷ []) × Approves test_codec member_props camera e
scene_run-Approves_example =
    scene_run-Approves test_codec member_props camera (mount_scene member_props)
      (approval_arrives ∷ []) refl (unfold mount_scene in refl) approved_camera

abbrev test_meeting : Meeting
test_meeting = record {
  member_props = member_props;
  host_props = host_props;
  asker = local_one (codes "bob");
  answerer = local_one (codes "ada");
  same_room = refl;
  asker_role = refl;
  answerer_role = refl;
  asker_here = refl;
  answerer_here = refl;
  asker_named = unfold is_empty in refl;
}

abbrev test_answer : List ℕ
test_answer = answer_bytes test_codec test_meeting camera (codes "q1") 100 101 true

abbrev asked_member : Scene
asked_member =
    scene_run test_codec member_props (mount_scene member_props)
      (asked_events test_codec test_meeting camera (codes "q1") 100 101)

abbrev answered_member : Scene
answered_member =
    scene_run test_codec member_props asked_member
      (received test_answer (some stage_control_topic) ∷ [])

abbrev answered_host : Scene
answered_host =
    scene_run test_codec host_props (mount_scene host_props)
      (answered_events test_codec test_meeting camera (codes "q1") 100 101 true)

exchange_lem_example :
    (asked_member.published
      ≡ (mount_scene member_props).published
        ++ request_bytes test_codec test_meeting camera (codes "q1") 100 101 ∷ [])
    × (answered_host.published ≡ (mount_scene host_props).published ++ test_answer ∷ [])
    × (answered_host.calls
        ≡ (mount_scene host_props).calls ++ permission_change (codes "bob") camera true ∷ [])
    × (count_request (codes "q1") answered_host.host_stage_requests ≡ 0)
    × (flag_of camera answered_member.stage_permission
        ≡ (true || flag_of camera (mount_scene member_props).stage_permission))
    × (flag_of camera answered_member.pending_stage_access ≡ false)
exchange_lem_example =
    exchange_lem test_codec test_meeting camera (codes "q1") 100 101 true (mount_scene member_props)
      (mount_scene host_props) (unfold mount_scene in refl)
