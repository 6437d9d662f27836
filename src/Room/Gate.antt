-- ===== src/Room/Gate.antt =====
-- useRoomState.ts: who may ask to join a room that wants an invite.
use ivena_meet.Base.{
  if◌then◌else◌, trim, is_empty, Text, codes, ◌≡◌, refl, sym, ap, ◌⊎◌, inl, inr, Bool, true, false,
  ◌&&◌, ◌||◌, arith,
}
use ivena_meet.Types.{is_member, RedeemInviteResp}
use ivena_meet.World.{World}
use ivena_meet.World.Effect.{Outcome, ok, thrown, M, and_then, return, throw}
use ivena_meet.World.Env.{Env, request}
use ivena_meet.Api.Client.Endpoints.{redeem}
use ivena_meet.Room.{invite_mode, effective_role}
use ivena_meet.Room.Enter.{redeem_now, redeem_step}

abbrev taken_out : Outcome Text → Text
taken_out (ok a) = a
taken_out (thrown e) = e

ok_injective : {a b : Text} → ok a ≡ ok b → a ≡ b
ok_injective h = ap taken_out h

gated :
    (need mem e a b : Bool) (m : M Text) (x t token : Text) (w : World)
    → (need && mem) ≡ true
    → ((if need && (mem && e) then (if a || b then throw x else m) else return t) w).0 ≡ ok token
    → ((token ≡ t) × (e ≡ false)) ⊎ ((a ≡ false) × (b ≡ false) × ((m w).0 ≡ ok token))
gated true true false a b m x t token w g h = inl (sym (ok_injective h), refl)
gated true true true true b m x t token w g h = ground (arith, h)
gated true true true false true m x t token w g h = ground (arith, h)
gated true true true false false m x t token w g h = inr (refl, refl, h)
gated true false e a b m x t token w g h = ground (arith, g)
gated false mem e a b m x t token w g h = ground (arith, g)

redeemed :
    (o : Outcome RedeemInviteResp) (v : World) (k : RedeemInviteResp → World → World) (token : Text)
    → (and_then (o, v) (λ got u. (ok got.redeem_token, k got u))).0 ≡ ok token
    → (got : RedeemInviteResp) × (o ≡ ok got) × (token ≡ got.redeem_token)
redeemed (ok got) v k token h = (got, refl, sym (ok_injective h))
redeemed (thrown e) v k token h = ground (arith, h)

redeem_now-token :
    (env : Env) (captured w : World) (token : Text)
    → (redeem_now env captured w).0 ≡ ok token
    → (got : RedeemInviteResp) × (env.on_redeem w.calls (
          redeem (record {
            room_id = trim captured.room_id;
            user_name = trim captured.user_name;
            invite_ticket = trim captured.room.invite_ticket;
            invite_code = trim captured.room.invite_code;
          }))
        ≡ ok got)
      × (token ≡ got.redeem_token)
unfolding redeem_now request
redeem_now-token env captured w token h = redeemed _ _ _ token h

-- A member who needs an invite comes to the join only with the token that is held, which is not
-- blank, or with one that the server gave for an invite code and ticket that are not blank.
pub redeem_step-token :
    (env : Env) (captured w : World) (token : Text)
    → ((captured.require_invite || invite_mode captured) && is_member (effective_role captured))
      ≡ true
    → (redeem_step env captured w).0 ≡ ok token
    → ((token ≡ trim captured.room.redeem_token) × (is_empty token ≡ false))
      ⊎ ((is_empty (trim captured.room.invite_code) ≡ false)
          × (is_empty (trim captured.room.invite_ticket) ≡ false)
          × ((got : RedeemInviteResp) × (env.on_redeem w.calls (
                  redeem (record {
                    room_id = trim captured.room_id;
                    user_name = trim captured.user_name;
                    invite_ticket = trim captured.room.invite_ticket;
                    invite_code = trim captured.room.invite_code;
                  }))
                ≡ ok got)
              × (token ≡ got.redeem_token)))
unfolding redeem_step
redeem_step-token env captured w token g h =
    let r = captured.room in
    let held = trim r.redeem_token in
    let need = captured.require_invite || invite_mode captured in
    elim (gated need (is_member (effective_role captured)) (is_empty held)
      (is_empty (trim r.invite_code)) (is_empty (trim r.invite_ticket)) (redeem_now env captured)
      (codes "invite_code and invite_ticket required") held token w g h) [
        | inl (same_token, full) ↦ inl (same_token, rw same_token full)
        | inr (c, t, k) ↦ inr (c, t, redeem_now-token env captured w token k)
      ]
