-- ===== src/Stage/Scene.antt =====
-- MainStage.tsx: the state of `StageScene` and its handlers. A handler that awaits is one function
-- for each stretch between two awaits. What is published to the other participants is written down
-- in `published`; the functions that the parent handed down are called in `calls`.
pub mod Asking
pub mod Toggles
pub mod Events
pub mod Requests
pub mod Grants
pub mod Exchange
use ivena_meet.Base.{
  if◌then◌else◌, take, text_eq, is_empty, Text, codes, ℕ, Bool, true, false, not, ◌&&◌, Option,
  none, some, List, [], ◌∷◌, ◌++◌,
}
use ivena_meet.Types.{
  Role, StageFeature, camera, screen_share, is_host, StageRequestPayload, StageDecisionPayload,
  StageControlPayload, stage_request, stage_decision,
}
use ivena_meet.Session.{NoticeKind, ok_notice, error_notice}
use ivena_meet.Stage.Json.{
  Json, null_value, array_value, boolean, number, string, object, Fields, lookup, Codec,
}
use ivena_meet.Stage.Parse.{parse_stage_control, parse_realtime_chat}

-- `Record<StageFeature, boolean>`
pub record FeatureFlags : Type 0 where
  pub camera_flag : Bool
  pub screen_share_flag : Bool

abbrev pub flag_of : StageFeature → FeatureFlags → Bool
flag_of camera f = f.camera_flag
flag_of screen_share f = f.screen_share_flag

abbrev pub with_flag : StageFeature → Bool → FeatureFlags → FeatureFlags
with_flag camera b f = record f { camera_flag = b }
with_flag screen_share b f = record f { screen_share_flag = b }

abbrev pub all_flags : Bool → FeatureFlags
all_flags b = record { camera_flag = b; screen_share_flag = b }

-- The local participant of the LiveKit client.
pub record LocalParticipant : Type 0 where
  pub identity : Text
  pub microphone_on : Bool
  pub camera_on : Bool
  pub screen_share_on : Bool

-- What a render has captured.
pub record SceneProps : Type 0 where
  pub role : Role
  pub room_id : Text
  pub initial_camera_allowed : Bool
  pub initial_screen_share_allowed : Bool
  pub local_participant : Option LocalParticipant
  pub has_ingress_participant : Bool

-- Calls of `onHostStagePermissionChange` and `onRealtimeChatMessage`.
pub data SceneCall : Type 0 where
  permission_change : Text → StageFeature → Bool → SceneCall
  realtime_chat_message : Fields → SceneCall

pub record Scene : Type 0 where
  pub stage_notice : Option (NoticeKind × Text)
  pub stage_permission : FeatureFlags
  pub pending_stage_access : FeatureFlags
  pub host_stage_requests : List StageRequestPayload
  pub pinned_identity : Option Text
  pub logs : List Text
  pub published : List (List ℕ)
  pub calls : List SceneCall

-- The timer that hides a notice is left out: a notice stays until the next.
abbrev pub show_stage_notice : NoticeKind → Text → Scene → Scene
show_stage_notice kind text s = record s { stage_notice = some (kind, text) }

abbrev pub on_log : Text → Scene → Scene
on_log line s = record s { logs = s.logs ++ line ∷ [] }

abbrev pub tell : NoticeKind → Text → Scene → Scene
tell kind text s = on_log text (show_stage_notice kind text s)

abbrev pub call : SceneCall → Scene → Scene
call c s = record s { calls = s.calls ++ c ∷ [] }

abbrev pub permitted : SceneProps → FeatureFlags
permitted p = if is_host p.role then all_flags true else record {
  camera_flag = p.initial_camera_allowed;
  screen_share_flag = p.initial_screen_share_allowed;
}

-- The first render.
unfoldable pub mount_scene : SceneProps → Scene
mount_scene p = record {
  stage_notice = none;
  stage_permission = permitted p;
  pending_stage_access = all_flags false;
  host_stage_requests = [];
  pinned_identity = none;
  logs = [];
  published = [];
  calls = [];
}

-- The effect on the role, the room and what the server allows.
unfoldable pub reset_scene : SceneProps → Scene → Scene
reset_scene p s = record s {
  stage_permission = permitted p;
  pending_stage_access = all_flags false;
  host_stage_requests = [];
  pinned_identity = none;
}

abbrev pub max_host_stage_requests : ℕ
max_host_stage_requests = 12

abbrev pub feature_name : StageFeature → Text
feature_name camera = codes "camera"
feature_name screen_share = codes "screen_share"

abbrev pub by_feature : StageFeature → Text → Text → Text
by_feature camera a b = a
by_feature screen_share a b = b

-- `localParticipant?.identity ?? ""`
abbrev pub identity_or : Text → Option LocalParticipant → Text
identity_or d none = d
identity_or d (some l) = l.identity

-- `prev.filter((req) => req.request_id !== id)`
abbrev pub without_request : Text → List StageRequestPayload → List StageRequestPayload
without_request id [] = []
without_request id (r ∷ rs) =
    let rest = without_request id rs in if text_eq r.request_id id then rest else r ∷ rest

unfoldable pub on_stage_request : SceneProps → StageRequestPayload → Scene → Scene
unfolding text_eq
on_stage_request p r s =
    if is_host p.role
    then on_log
        (codes "stage request: "
          ++ (r.target_user
              ++ (codes " requested "
                  ++ by_feature r.feature (codes "camera") (codes "screen share"))))
        (record s {
          host_stage_requests =
              take max_host_stage_requests (r ∷ without_request r.request_id s.host_stage_requests);
        })
    else s

unfoldable pub on_stage_decision : SceneProps → StageDecisionPayload → Scene → Scene
unfolding text_eq
on_stage_decision p d s =
    let listed = record s {
      host_stage_requests = without_request d.request_id s.host_stage_requests;
    } in
    let answered = record listed {
      pending_stage_access = with_flag d.feature false listed.pending_stage_access;
    } in
    if not (text_eq d.target_user (identity_or [] p.local_participant))
    then listed
    else if d.approved
    then on_log
        (codes "stage decision: approved "
          ++ (feature_name d.feature ++ (codes " by " ++ d.decided_by)))
        (show_stage_notice ok_notice (by_feature d.feature (codes "主持人已批准摄像头") (codes "主持人已批准共享屏幕"))
          (record answered {
            stage_permission = with_flag d.feature true answered.stage_permission;
          }))
    else on_log
        (codes "stage decision: denied "
          ++ (feature_name d.feature ++ (codes " by " ++ d.decided_by)))
        (show_stage_notice error_notice
          (by_feature d.feature (codes "主持人拒绝了摄像头申请") (codes "主持人拒绝了共享屏幕申请")) answered)

-- `parsed.room_id !== roomId` for an object whose fields have not been tested.
abbrev pub is_in_room : Text → Option Json → Bool
is_in_room room none = false
is_in_room room (some null_value) = false
is_in_room room (some array_value) = false
is_in_room room (some (boolean b)) = false
is_in_room room (some (number n)) = false
is_in_room room (some (string s)) = text_eq s room
is_in_room room (some (object fs)) = false

unfoldable pub on_stage_control : SceneProps → Option StageControlPayload → Scene → Scene
unfolding on_stage_request on_stage_decision text_eq
on_stage_control p none s = s
on_stage_control p (some (stage_request r)) s =
    if text_eq r.room_id p.room_id then on_stage_request p r s else s
on_stage_control p (some (stage_decision d)) s =
    if text_eq d.room_id p.room_id then on_stage_decision p d s else s

unfoldable pub on_chat_data : SceneProps → Option Fields → Scene → Scene
unfolding lookup text_eq
on_chat_data p none s = s
on_chat_data p (some fs) s =
    if is_in_room p.room_id (lookup (codes "room_id") fs)
    then call (realtime_chat_message fs) s
    else s

abbrev pub chat_topic : Text
chat_topic = codes "chat.message.v1"

abbrev pub stage_control_topic : Text
stage_control_topic = codes "stage.control.v1"

abbrev pub other_topic : Option Text → Bool
other_topic none = false
other_topic (some t) = not (is_empty t) && not (text_eq t chat_topic)

abbrev pub is_control_topic : Option Text → Bool
is_control_topic none = false
is_control_topic (some t) = text_eq t stage_control_topic

-- `onData`
unfoldable pub on_data : Codec → SceneProps → List ℕ → Option Text → Scene → Scene
unfolding on_stage_control on_chat_data parse_stage_control parse_realtime_chat is_empty text_eq
on_data codec p payload topic s =
    if is_control_topic topic
    then on_stage_control p (parse_stage_control codec payload) s
    else if other_topic topic
    then s
    else on_chat_data p (parse_realtime_chat codec payload) s
