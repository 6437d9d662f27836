-- ===== src/Room/Joined/Steps.antt =====
-- useRoomState.ts: which steps of a join leave the session or its tokens as they are.
use ivena_meet.World.{World}
use ivena_meet.World.Effect.{Outcome, ok, thrown, M, and_then, ◌>>◌, when}
use ivena_meet.Avatar.Sync.{sync_avatar_from_server}
use ivena_meet.Room.Join.{
  text_or_empty, store_joined, store_broadcast, restore_broadcast, upload_pending, settle_avatar,
  offer_reclaim,
}
use ivena_meet.Types.{is_host, Opt, JoinResp}
use ivena_meet.World.Env.{Env, request}
use ivena_meet.Room.Enter.{redeem_now, redeem_step, login_step, join_step}
use ivena_meet.Base.{Text, ◌≡◌, refl, ◌∙◌, Bool, true, false, Option, some, arith}

abbrev pub session_of : World → Option JoinResp × Text
session_of w = (w.joined, w.app_session_token)

abbrev pub tokens_of : World → Option JoinResp × (Text × Text)
tokens_of w = (w.joined, (w.app_session_token, w.host_session_token))

pub redeem_step-session :
    (env : Env) (captured w : World) → session_of (redeem_step env captured w).1 ≡ session_of w
unfolding redeem_step redeem_now request
redeem_step-session env captured w = ground arith

pub login_step-session :
    (env : Env) (captured w : World) → session_of (login_step env captured w).1 ≡ session_of w
unfolding login_step request
login_step-session env captured w = ground arith

pub join_step-session :
    (env : Env) (captured : World) (skip : Bool) (token : Text) (auth : Option Text) (w : World)
    → session_of (join_step env captured skip token auth w).1 ≡ session_of w
unfolding join_step request
join_step-session env captured skip token auth w = ground arith

sync-tokens :
    (env : Env) (name : Text) (url : Opt Text) (w : World)
    → tokens_of (sync_avatar_from_server env name url w) ≡ tokens_of w
unfolding sync_avatar_from_server
sync-tokens env name url w = ground arith

restore_broadcast-tokens :
    (env : Env) (captured : World) (res : JoinResp) (auth : Option Text) (w : World)
    → tokens_of (restore_broadcast env captured res auth w).1 ≡ tokens_of w
unfolding restore_broadcast store_broadcast request
restore_broadcast-tokens env captured res auth w = ground arith

settle_avatar-tokens :
    (env : Env) (captured : World) (res : JoinResp) (w : World)
    → tokens_of (settle_avatar env captured res w).1 ≡ tokens_of w
unfolding settle_avatar upload_pending request
settle_avatar-tokens env captured res w = ground (arith, sync-tokens env)

pub store_joined-tokens :
    (env : Env) (captured : World) (res : JoinResp) (w : World)
    → tokens_of (store_joined env captured res w)
      ≡ (some res, (res.app_session_token, text_or_empty res.host_session_token))
unfolding store_joined
store_joined-tokens env captured res w = refl

then_tokens :
    (r : Outcome (Unit {0}) × World) (k : M (Unit {0})) (w : World)
    → tokens_of r.1 ≡ tokens_of w
    → ((v : World) → tokens_of (k v).1 ≡ tokens_of v)
    → tokens_of (and_then r (λ _. k)).1 ≡ tokens_of w
then_tokens (ok u, v) k w h next = next v ∙ h
then_tokens (thrown e, v) k w h next = h

when_tokens :
    (b : Bool) (m : M (Unit {0})) (w : World)
    → tokens_of (m w).1 ≡ tokens_of w
    → tokens_of (when b m w).1 ≡ tokens_of w
when_tokens true m w h = h
when_tokens false m w h = refl

-- What follows the join changes neither the session nor its tokens.
pub settled-tokens :
    (env : Env) (captured : World) (res : JoinResp) (auth : Option Text) (w : World)
    → tokens_of
        ((when (is_host res.role) (restore_broadcast env captured res auth)
            >> settle_avatar env captured res)
          w).1
      ≡ tokens_of w
settled-tokens env captured res auth w =
    then_tokens (when (is_host res.role) (restore_broadcast env captured res auth) w)
      (settle_avatar env captured res) w
      (when_tokens (is_host res.role) (restore_broadcast env captured res auth) w
        (restore_broadcast-tokens env captured res auth w))
      (settle_avatar-tokens env captured res)

pub offer_reclaim-tokens :
    (env : Env) (captured w : World) (e : Text)
    → tokens_of (offer_reclaim env captured e w) ≡ tokens_of w
unfolding offer_reclaim
offer_reclaim-tokens env captured w e = ground arith
