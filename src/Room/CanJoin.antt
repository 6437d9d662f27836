-- ===== src/Room/CanJoin.antt =====
-- Sidebar.tsx: when the button that joins the room can be pressed.
use ivena_meet.Base.{
  if◌then◌else◌, and_split, trim, is_empty, Text, codes, ◌≡◌, ap, Bool, true, false, not, ◌&&◌,
  ◌||◌, [], arith,
}
use ivena_meet.Types.{is_member, RedeemInviteResp}
use ivena_meet.World.{World}
use ivena_meet.World.Effect.{Outcome, ok, thrown, M, and_then, return, throw}
use ivena_meet.World.Env.{Env, request}
use ivena_meet.Api.Client.Endpoints.{redeem}
use ivena_meet.Room.{invite_mode, effective_role}
use ivena_meet.Room.Enter.{redeem_now, redeem_step}

unfoldable pub requires_invite_code : World → Bool
unfolding invite_mode effective_role
requires_invite_code w = (w.require_invite || invite_mode w) && is_member (effective_role w)

abbrev filled : Text → Bool
filled t = not (is_empty (trim t))

unfoldable pub can_join : World → Bool
unfolding requires_invite_code is_empty trim
can_join w =
    (filled w.room_id && filled w.user_name)
    && (not (requires_invite_code w) || (filled w.room.invite_code && filled w.room.invite_ticket))

abbrev said_by : Outcome Text → Text
said_by (ok a) = []
said_by (thrown e) = e

refused :
    (o : Outcome RedeemInviteResp) (v : World) (k : RedeemInviteResp → World → World) (e : Text)
    → (and_then (o, v) (λ got u. (ok got.redeem_token, k got u))).0 ≡ thrown e
    → o ≡ thrown e
refused (ok got) v k e h = ground (arith, h)
refused (thrown d) v k e h = ap (λ o. thrown (said_by o)) h

stopped :
    (need mem blank no_code no_ticket : Bool) (m : M Text) (x t e : Text) (w : World)
    → (not (need && mem) || (not no_code && not no_ticket)) ≡ true
    → ((if need && (mem && blank) then (if no_code || no_ticket then throw x else m) else return t)
        w).0
      ≡ thrown e
    → (m w).0 ≡ thrown e
stopped true true true false false m x t e w g h = h
stopped true true true true b m x t e w g h = ground (arith, g)
stopped true true true false true m x t e w g h = ground (arith, g)
stopped true true false a b m x t e w g h = ground (arith, h)
stopped true false blank a b m x t e w g h = ground (arith, h)
stopped false mem blank a b m x t e w g h = ground (arith, h)

-- Where the button can be pressed, the step that redeems an invite fails only if the server refuses
-- the invite of the fields; it never fails for want of a code or a ticket.
pub can_join-redeem_step :
    (env : Env) (captured w : World) (e : Text)
    → can_join captured ≡ true
    → (redeem_step env captured w).0 ≡ thrown e
    → env.on_redeem w.calls (
        redeem (record {
          room_id = trim captured.room_id;
          user_name = trim captured.user_name;
          invite_ticket = trim captured.room.invite_ticket;
          invite_code = trim captured.room.invite_code;
        }))
      ≡ thrown e
unfolding can_join requires_invite_code redeem_step redeem_now request
can_join-redeem_step env captured w e g h =
    let r = captured.room in
    let (named, ready) =
      and_split (filled captured.room_id && filled captured.user_name)
        (not (requires_invite_code captured) || (filled r.invite_code && filled r.invite_ticket))
        g in
    refused _ _ _ e (
      stopped (captured.require_invite || invite_mode captured)
        (is_member (effective_role captured)) (is_empty (trim r.redeem_token))
        (is_empty (trim r.invite_code)) (is_empty (trim r.invite_ticket)) (redeem_now env captured)
        (codes "invite_code and invite_ticket required") (trim r.redeem_token) e w ready h)
