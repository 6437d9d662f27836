-- ===== src/Room/Moderation.antt =====
-- useRoomState.ts: muting members and their media permissions, and `run`, which shows a failure.
use ivena_meet.Base.{
  ◌==◌, if◌then◌else◌, trim, to_decimal, Text, codes, ℕ, ◌*◌, Bool, not, ◌&&◌, [], ◌++◌,
}
use ivena_meet.Types.{
  StageFeature, camera, screen_share, nullish, MuteResp, SetMemberMediaPermissionResp,
}
use ivena_meet.World.{World}
use ivena_meet.World.Effect.{Outcome, ok, thrown, M, ◌>>=◌, modify, log_to}
use ivena_meet.World.Env.{Env, request}
use ivena_meet.Api.Client.Endpoints.{mute_one, mute_everyone, set_member_media_permission}
use ivena_meet.Session.{ok_notice, error_notice}
use ivena_meet.Room.{show_action_notice}
use ivena_meet.Room.Urls.{is_identity_in_use_error}

abbrev pick_text : Bool → Text → Text → Text
pick_text b s t = if b then s else t

abbrev feature_name : StageFeature → Text
feature_name camera = codes "camera"
feature_name screen_share = codes "screen_share"

abbrev feature_text : StageFeature → Text
feature_text camera = codes "摄像头"
feature_text screen_share = codes "投屏"

module _ (env : Env) where
  -- What a reply of `muteAll` shows.
  unfoldable pub told_mute_all : Bool → MuteResp → World → World
  told_mute_all muted res w =
      let logged =
        log_to
          (pick_text muted (codes "mute all") (codes "unmute all")
            ++ (codes " applied (" ++ (to_decimal res.affected_tracks ++ codes ")")))
          w in
      if res.affected_tracks == 0
      then show_action_notice error_notice
          (pick_text muted (codes "未命中可静音麦克风（可能成员未开麦或未发布麦克风）") (codes "未命中可解除的麦克风（可能当前都未被服务端静音）"))
          logged
      else show_action_notice ok_notice
          (pick_text muted (codes "全员静音") (codes "解除全员静音")
            ++ (codes "已应用（" ++ (to_decimal res.affected_tracks ++ codes "）")))
          logged

  unfoldable pub mute_all_world : World → Bool → M (Unit {0})
  unfolding request mute_everyone told_mute_all trim
  mute_all_world captured muted = do
    res ← request env.on_mute captured (
        mute_everyone (record {
          room_id = trim captured.room_id;
          host_identity = trim captured.user_name;
          muted = muted;
        }))
    modify (told_mute_all muted res)

  unfoldable pub told_mute_one : Text → Bool → MuteResp → World → World
  told_mute_one target muted res w =
      let tracks = to_decimal res.affected_tracks in
      let logged =
        log_to
          (pick_text muted (codes "mute ") (codes "unmute ")
            ++ (target ++ (codes " (" ++ (tracks ++ codes ")"))))
          w in
      if res.affected_tracks == 0
      then show_action_notice error_notice (codes "未命中 " ++ (target ++ codes " 的麦克风轨道")) logged
      else show_action_notice ok_notice
          (pick_text muted (codes "已静音") (codes "已解除静音")
            ++ (codes " " ++ (target ++ (codes "（" ++ (tracks ++ codes "）")))))
          logged

  unfoldable pub mute_one_world : World → Text → Bool → M (Unit {0})
  unfolding request mute_one told_mute_one trim
  mute_one_world captured target muted = do
    res ← request env.on_mute captured (
        mute_one (record {
          room_id = trim captured.room_id;
          host_identity = trim captured.user_name;
          target_identity = target;
          muted = muted;
        }))
    modify (told_mute_one target muted res)

  -- `feature === "camera" ? res.camera_expires_at : res.screen_share_expires_at`, 0 for a falsy one
  unfoldable pub expiry_of : StageFeature → SetMemberMediaPermissionResp → ℕ
  expiry_of camera res = nullish res.camera_expires_at 0
  expiry_of screen_share res = nullish res.screen_share_expires_at 0

  unfoldable pub told_permission :
      Text → StageFeature → Bool → SetMemberMediaPermissionResp → World → World
  unfolding expiry_of
  told_permission target feature enabled res w =
      let expires_at = expiry_of feature res in
      let hint =
        pick_text (enabled && not (expires_at == 0))
          (codes "（有效至 " ++ (env.locale_time_string (expires_at * 1000) ++ codes "）")) [] in
      let logged =
        log_to
          (pick_text enabled (codes "allow ") (codes "deny ")
            ++ (feature_name feature
                ++ (codes " "
                    ++ (target
                        ++ (codes " (affected="
                            ++ (to_decimal res.affected_tracks
                                ++ (pick_text (expires_at == 0) []
                                      (codes ", expires_at=" ++ to_decimal expires_at)
                                    ++ codes ")")))))))
          w in
      show_action_notice ok_notice
        (pick_text enabled (codes "已允许") (codes "已关闭")
          ++ (codes " " ++ (target ++ (codes " 的" ++ (feature_text feature ++ hint)))))
        logged

  unfoldable pub set_permission_world : World → Text → StageFeature → Bool → M (Unit {0})
  unfolding request set_member_media_permission told_permission trim
  set_permission_world captured target feature enabled = do
    res ← request env.on_media_permission captured (
        set_member_media_permission (record {
          room_id = trim captured.room_id;
          host_identity = trim captured.user_name;
          target_identity = target;
          feature = feature;
          enabled = enabled;
        }))
    modify (told_permission target feature enabled res)

  -- `run(fn)`: a failure is logged and shown, unless the render it was called from offered the
  -- reclaim and the failure is of that kind.
  unfoldable pub run_handler : World → M (Unit {0}) → World → World
  unfolding is_identity_in_use_error
  run_handler captured handler w = settled (handler w)
    where
      settled : Outcome (Unit {0}) × World → World
      settled (ok u, v) = v
      settled (thrown message, v) =
          if captured.room.show_reclaim_cta && is_identity_in_use_error env.to_lower_case message
          then log_to message v
          else show_action_notice error_notice message (log_to message v)
