-- ===== src/Types/Session.antt =====
-- types.ts: joining, host login, sessions and the host lock.
use ivena_meet.Base.{Text, ℕ, Bool, Option}
use ivena_meet.Types.Common.{Role, Opt}

pub record JoinReq : Type 0 where
  pub room_id : Text
  pub user_name : Text
  pub role : Option Role
  pub redeem_token : Option Text
  pub nickname : Option Text
  pub avatar_url : Option Text

pub record HostLoginTotpReq : Type 0 where
  pub room_id : Text
  pub host_identity : Text
  pub totp_code : Text

pub record HostLoginResp : Type 0 where
  pub host_session_token : Text
  pub expires_in_seconds : ℕ

pub record JoinResp : Type 0 where
  pub lk_url : Text
  pub token : Text
  pub expires_in_seconds : ℕ
  pub role : Role
  pub camera_allowed : Bool
  pub screen_share_allowed : Bool
  pub camera_expires_at : Opt ℕ
  pub screen_share_expires_at : Opt ℕ
  pub nickname : Text
  pub avatar_url : Opt Text
  pub app_session_token : Text
  pub app_session_expires_in_seconds : ℕ
  pub host_session_token : Option Text
  pub host_session_expires_in_seconds : Option ℕ

pub record ReconnectResp : Type 0 where
  pub lk_url : Text
  pub token : Text
  pub expires_in_seconds : ℕ
  pub role : Role
  pub camera_allowed : Bool
  pub screen_share_allowed : Bool
  pub camera_expires_at : Opt ℕ
  pub screen_share_expires_at : Opt ℕ

pub record LeaveResp : Type 0 where
  pub released : Bool

pub record RefreshSessionResp : Type 0 where
  pub app_session_token : Text
  pub app_session_expires_in_seconds : ℕ

pub record SessionHeartbeatResp : Type 0 where
  pub is_ok : Bool
  pub app_session_expires_in_seconds : ℕ

pub record ForceReclaimReq : Type 0 where
  pub room_id : Text
  pub host_identity : Text

pub record ForceReclaimResp : Type 0 where
  pub reclaimed : Bool
  pub reason : Text
  pub stale_age_seconds : ℕ

pub record UploadAvatarResp : Type 0 where
  pub avatar_url : Text
