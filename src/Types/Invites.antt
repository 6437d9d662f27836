-- ===== src/Types/Invites.antt =====
-- types.ts: invites.
use ivena_meet.Base.{Text, ℕ, Bool, List}

pub record RedeemInviteReq : Type 0 where
  pub room_id : Text
  pub user_name : Text
  pub invite_ticket : Text
  pub invite_code : Text

pub record RedeemInviteResp : Type 0 where
  pub redeem_token : Text
  pub ticket_remaining_uses : ℕ
  pub expires_in_seconds : ℕ

pub record CreateInviteReq : Type 0 where
  pub room_id : Text
  pub host_identity : Text

pub record CreateInviteResp : Type 0 where
  pub invite_code : Text
  pub invite_ticket : Text
  pub invite_max_uses : ℕ
  pub invite_url : Text
  pub expires_at : Text

pub record InviteListItem : Type 0 where
  pub invite_code : Text
  pub invite_ticket : Text
  pub remaining_uses : ℕ
  pub expires_at : Text

pub record ListInvitesResp : Type 0 where
  pub items : List InviteListItem

pub record RevokeInviteReq : Type 0 where
  pub room_id : Text
  pub host_identity : Text
  pub invite_ticket : Text

pub record RevokeInviteResp : Type 0 where
  pub revoked : Bool
