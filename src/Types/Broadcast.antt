-- ===== src/Types/Broadcast.antt =====
-- types.ts: the broadcast requests and replies.
use ivena_meet.Base.{Text, ℕ, Bool, Option}
use ivena_meet.Types.Common.{Opt}

pub record IssueBroadcastReq : Type 0 where
  pub room_id : Text
  pub host_identity : Text

pub record IssueBroadcastResp : Type 0 where
  pub start_token : Text
  pub expires_in_seconds : ℕ

pub record StartBroadcastReq : Type 0 where
  pub room_id : Text
  pub participant_identity : Text
  pub participant_name : Option Text
  pub start_token : Text

pub record StartBroadcastResp : Type 0 where
  pub whip_url : Text
  pub stream_key : Text
  pub ingress_id : Text

pub record StopBroadcastReq : Type 0 where
  pub ingress_id : Text

pub record CurrentBroadcastReq : Type 0 where
  pub room_id : Text
  pub host_identity : Text

pub record CurrentBroadcastResp : Type 0 where
  pub active : Bool
  pub whip_url : Opt Text
  pub stream_key : Opt Text
  pub ingress_id : Opt Text
