-- ===== src/Types/Moderation.antt =====
-- types.ts: moderation and the members of the room.
use ivena_meet.Base.{Text, ℕ, Bool}
use ivena_meet.Types.Common.{StageFeature, Opt}

pub record MuteMemberReq : Type 0 where
  pub room_id : Text
  pub host_identity : Text
  pub target_identity : Text
  pub muted : Bool

pub record MuteAllReq : Type 0 where
  pub room_id : Text
  pub host_identity : Text
  pub muted : Bool

pub record MuteResp : Type 0 where
  pub affected_tracks : ℕ

pub record SetMemberMediaPermissionReq : Type 0 where
  pub room_id : Text
  pub host_identity : Text
  pub target_identity : Text
  pub feature : StageFeature
  pub enabled : Bool

pub record SetMemberMediaPermissionResp : Type 0 where
  pub affected_tracks : ℕ
  pub camera_allowed : Bool
  pub screen_share_allowed : Bool
  pub camera_expires_at : Opt ℕ
  pub screen_share_expires_at : Opt ℕ
