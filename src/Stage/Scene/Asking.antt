-- ===== src/Stage/Scene/Asking.antt =====
-- MainStage.tsx: `requestStageAccess`, `decideStageAccess` and `publishStageControl`.
use ivena_meet.Base.{
  if◌then◌else◌, text_eq, is_empty, Text, codes, pos, ℕ, Bool, true, Option, none, some, List, [],
  ◌∷◌, ◌++◌,
}
use ivena_meet.Types.{
  StageFeature, is_host, StageRequestPayload, StageDecisionPayload, StageControlPayload,
}
use ivena_meet.Session.{ok_notice, error_notice}
use ivena_meet.World.Effect.{Outcome, ok, thrown}
use ivena_meet.Stage.Json.{Codec}
use ivena_meet.Stage.Parse.{write_stage_control}
use ivena_meet.Stage.Scene.{
  flag_of, with_flag, LocalParticipant, SceneProps, permission_change, Scene, show_stage_notice,
  on_log, tell, call, feature_name, by_feature, identity_or, without_request,
}

-- `requestStageAccess` until the request is published: the request, if one is to be sent.
-- `request_id` and `seconds` are what `createRequestId` and the clock give.
unfoldable pub request_stage_access :
    SceneProps → StageFeature → Text → ℕ → Scene → Option StageRequestPayload × Scene
unfolding is_empty
request_stage_access p wanted request_id seconds s =
    let target = identity_or [] p.local_participant in
    if is_host p.role
    then (none, s)
    else if is_empty target
    then (none, show_stage_notice error_notice (codes "当前尚未建立会话，请稍后重试") s)
    else if flag_of wanted s.pending_stage_access
    then (
      none,
      show_stage_notice error_notice (by_feature wanted (codes "摄像头申请处理中") (codes "共享屏幕申请处理中")) s,
    )
    else (
      some (record {
        room_id = p.room_id;
        request_id = request_id;
        target_user = target;
        feature = wanted;
        created_at = pos seconds;
      }),
      s,
    )

abbrev pub published_by : Option LocalParticipant → List ℕ → Scene → Outcome (Unit {0}) × Scene
published_by none bytes s = (thrown (codes "not connected to room"), s)
published_by (some l) bytes s = (ok tt, record s { published = s.published ++ bytes ∷ [] })

-- `publishStageControl` until it awaits.
unfoldable pub publish_stage_control :
    Codec → SceneProps → StageControlPayload → Scene → Outcome (Unit {0}) × Scene
unfolding write_stage_control
publish_stage_control codec p payload s =
    published_by p.local_participant (write_stage_control codec payload) s

unfoldable pub request_sent : StageFeature → Scene → Scene
request_sent wanted s = on_log (codes "stage request sent: " ++ feature_name wanted) (
    show_stage_notice ok_notice (by_feature wanted (codes "已向主持人申请开启摄像头") (codes "已向主持人申请共享屏幕"))
      (record s { pending_stage_access = with_flag wanted true s.pending_stage_access }))

unfoldable pub request_failed : Text → Scene → Scene
request_failed e s = tell error_notice (codes "发送申请失败：" ++ e) s

-- `decideStageAccess`: the decision, and the call of `onHostStagePermissionChange` that comes first.
unfoldable pub decision_on : SceneProps → StageRequestPayload → Bool → ℕ → StageDecisionPayload
decision_on p r verdict seconds = record {
  room_id = p.room_id;
  request_id = r.request_id;
  target_user = r.target_user;
  feature = r.feature;
  approved = verdict;
  decided_by = identity_or (codes "host") p.local_participant;
  created_at = pos seconds;
}

unfoldable pub decide_stage_access : StageRequestPayload → Bool → Scene → Scene
decide_stage_access r verdict s = call (permission_change r.target_user r.feature verdict) s

unfoldable pub decision_sent : StageRequestPayload → Bool → Scene → Scene
unfolding text_eq
decision_sent r verdict s =
    on_log
      (codes "stage decision sent: "
        ++ (r.target_user
            ++ (codes " "
                ++ (feature_name r.feature
                    ++ (if verdict then codes " approved" else codes " denied")))))
      (show_stage_notice (if verdict then ok_notice else error_notice)
        ((if verdict then codes "已批准 " else codes "已拒绝 ")
          ++ (r.target_user ++ (codes " 的" ++ by_feature r.feature (codes "摄像头") (codes "共享屏幕"))))
        (record s { host_stage_requests = without_request r.request_id s.host_stage_requests }))

unfoldable pub decision_failed : Text → Scene → Scene
decision_failed e s = tell error_notice (codes "发送审批失败：" ++ e) s
