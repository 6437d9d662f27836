-- ===== src/Layout/Permission.antt =====
-- Layout.tsx: how a host's verdict on a feature reaches the server.
use ivena_meet.Base.{
  ◌==◌, if◌then◌else◌, trim, is_empty, to_decimal, Text, codes, ℕ, Bool, not, ◌||◌, Option, [],
  ◌++◌,
}
use ivena_meet.Types.{
  Role, StageFeature, camera, screen_share, is_host, Opt, nullish, SetMemberMediaPermissionReq,
  SetMemberMediaPermissionResp,
}
use ivena_meet.World.Effect.{Outcome, ok, thrown}
use ivena_meet.Layout.Screen.{role_or}

-- What a render has captured.
pub record PermissionProps : Type 0 where
  pub session : Option Role
  pub role : Role
  pub room_id : Text
  pub user_name : Text

-- `handleHostStagePermissionChange` until its request: the error that it throws, or the request.
unfoldable pub handle_host_stage_permission_change :
    PermissionProps → Text → StageFeature → Bool → Outcome SetMemberMediaPermissionReq
unfolding is_empty
handle_host_stage_permission_change p target feature enabled =
    if not (is_host (role_or p.role p.session))
    then thrown (codes "only host can change stage permissions")
    else if is_empty (trim p.room_id) || is_empty (trim p.user_name)
    then thrown (codes "room_id and host identity are required")
    else ok (record {
      room_id = trim p.room_id;
      host_identity = trim p.user_name;
      target_identity = target;
      feature = feature;
      enabled = enabled;
    })

abbrev pub name_of_feature : StageFeature → Text
name_of_feature camera = codes "camera"
name_of_feature screen_share = codes "screen_share"

abbrev expires_of : StageFeature → SetMemberMediaPermissionResp → Opt ℕ
expires_of camera res = res.camera_expires_at
expires_of screen_share res = res.screen_share_expires_at

-- `expiresAt ? …`: a missing time and the time 0 are left out.
abbrev expiry_part : ℕ → Text
expiry_part at = if at == 0 then [] else codes ", expires_at=" ++ to_decimal at

-- The line of the log once the server has answered.
unfoldable pub stage_permission_line :
    Text → StageFeature → Bool → SetMemberMediaPermissionResp → Text
unfolding to_decimal
stage_permission_line target feature enabled res =
    codes "stage permission "
    ++ ((if enabled then codes "allow" else codes "deny")
        ++ (codes " "
            ++ (name_of_feature feature
                ++ (codes " -> "
                    ++ (target
                        ++ (codes " (affected="
                            ++ (to_decimal res.affected_tracks
                                ++ (expiry_part (nullish (expires_of feature res) 0)
                                    ++ codes ")"))))))))
