-- ===== src/Types/Stage.antt =====
-- types.ts: what the participants exchange about the stage, and the members that are listed.
use ivena_meet.Base.{Text, ℤ, Bool}
use ivena_meet.Types.Common.{StageFeature}

pub record StageRequestPayload : Type 0 where
  pub room_id : Text
  pub request_id : Text
  pub target_user : Text
  pub feature : StageFeature
  pub created_at : ℤ

pub record StageDecisionPayload : Type 0 where
  pub room_id : Text
  pub request_id : Text
  pub target_user : Text
  pub feature : StageFeature
  pub approved : Bool
  pub decided_by : Text
  pub created_at : ℤ

pub data StageControlPayload : Type 0 where
  stage_request : StageRequestPayload → StageControlPayload
  stage_decision : StageDecisionPayload → StageControlPayload

pub record MemberItem : Type 0 where
  pub identity : Text
  pub is_local : Bool
  pub speaking : Bool
  pub mic_enabled : Bool
  pub camera_enabled : Bool
  pub screen_share_enabled : Bool
