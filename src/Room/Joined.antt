-- ===== src/Room/Joined.antt =====
-- useRoomState.ts: the session that a join leaves behind.
pub mod Steps
use ivena_meet.Room.Joined.Steps.{
  session_of, tokens_of, redeem_step-session, login_step-session, join_step-session,
  store_joined-tokens, settled-tokens, offer_reclaim-tokens,
}
use ivena_meet.Room.Retry.{sent}
use ivena_meet.World.{Call, World}
use ivena_meet.Api.Client.Endpoints.{join, force_reclaim_host_lock}
use ivena_meet.World.Effect.{Outcome, ok, thrown, M, and_then, rescue, when, Outcome-cases}
use ivena_meet.Avatar.Sync.{is_joined}
use ivena_meet.Room.Leave.{leave_world}
use ivena_meet.Room.Leaving.{leave_world-HasLeft}
use ivena_meet.Room.Join.{
  text_or_empty, store_joined, join_body, offer_reclaim, set_joining, rethrow_after, join_room,
}
use ivena_meet.Types.{JoinResp}
use ivena_meet.World.Env.{Env, request}
use ivena_meet.Room.Enter.{redeem_step, login_step, join_payload, join_step}
use ivena_meet.Base.{
  if◌then◌else◌, trim, is_empty, Text, ◌≡◌, refl, ap, ◌∙◌, ◌⊎◌, inl, inr, Bool, true, false, Option,
  none, some, List, [], ◌∷◌, ◌++◌, arith,
}

-- What holds of the end of both stretches of a handler.
after_both :
    {A B : Type 0} (P : Outcome B × World → Type 0) (r : Outcome A × World) (f : A → M B)
    → ((e : Text) → r.0 ≡ thrown e → P (thrown e, r.1))
    → ((a : A) → r.0 ≡ ok a → P (f a r.1))
    → P (and_then r f)
after_both P (ok a, v) f h k = k a refl
after_both P (thrown e, v) f h k = h e refl

taken_out : {A : Type 0} → A → Outcome A → A
taken_out d (ok a) = a
taken_out d (thrown e) = d

ok_injective : {A : Type 0} {a b : A} → ok a ≡ ok b → a ≡ b
unfolding taken_out
ok_injective {a = a} h = ap (taken_out a) h

-- The server let the user in: its answer to the join, after these requests.
abbrev pub LetIn : Env → World → JoinResp → Type 0
LetIn env captured res =
    (calls : List Call) × (token : Text) × (auth : Option Text) × (env.on_join calls
        (join (join_payload env captured token) auth)
      ≡ ok res)

join_step-LetIn :
    (env : Env) (captured : World) (skip : Bool) (token : Text) (auth : Option Text) (w : World)
    → (res : JoinResp) → (join_step env captured skip token auth w).0 ≡ ok res
    → LetIn env captured res
unfolding join_step request
join_step-LetIn env captured skip token auth w res h =
    let r = join (join_payload env captured token) auth in
    let once = w.calls ++ sent captured r ∷ [] in
    elim (Outcome-cases (env.on_join w.calls r)) [
      | inl (a, e) ↦ (w.calls, token, auth, e ∙ ap ok (ok_injective (ground (arith, e, h))))
      | inr (t, e) ↦
          let lock =
            force_reclaim_host_lock
              (record { room_id = trim captured.room_id; host_identity = trim captured.user_name })
              auth in
          let twice = once ++ sent captured lock ∷ [] in
          elim (Outcome-cases (env.on_join twice r)) [
            | inl (b, f) ↦ (twice, token, auth, f ∙ ap ok (ok_injective (ground (arith, e, f, h))))
            | inr (u, f) ↦ absurd (ground (arith, e, f, h))
          ]
    ]

-- A join that comes to its end leaves the session that the server answered with and its tokens, or it
-- throws and leaves the session of before.
abbrev pub Entered : Env → World → World → Type 0
Entered env captured v =
    (res : JoinResp) × LetIn env captured res
    × (tokens_of v ≡ (some res, (res.app_session_token, text_or_empty res.host_session_token)))

abbrev pub Refused : Option JoinResp × Text → Outcome (Unit {0}) × World → Type 0
Refused before r = ((e : Text) × (r.0 ≡ thrown e)) × (session_of r.1 ≡ before)

abbrev pub session_before : World → World → Option JoinResp × Text
session_before captured w = if is_joined captured.joined then (none, []) else session_of w

left_session :
    (env : Env) (captured w : World)
    → let r = when (is_joined captured.joined) (leave_world env captured) w in
      (r.0 ≡ ok tt) × (session_of r.1 ≡ session_before captured w)
left_session env captured w =
    let (fine, cleared) = leave_world-HasLeft env captured w in
    ground (arith, fine, cleared.0, cleared.1)

join_body-ends :
    (env : Env) (captured : World) (skip : Bool) (w : World)
    → let r = join_body env captured skip w in
      Entered env captured r.1 ⊎ Refused (session_before captured w) r
unfolding join_body
join_body-ends env captured skip w =
    let before = session_before captured w in
    let P = λ (r : Outcome (Unit {0}) × World). Entered env captured r.1 ⊎ Refused before r in
    let (fine, left) = left_session env captured w in
    let v0 = (when (is_joined captured.joined) (leave_world env captured) w).1 in
    after_both P (when (is_joined captured.joined) (leave_world env captured) w) _
      (λ e h. absurd (ground (arith, fine, h)))
      λ _ _.
        after_both P (redeem_step env captured v0) _
          (λ e h. inr ((e, refl), redeem_step-session env captured v0 ∙ left))
          λ token _.
            let v1 = (redeem_step env captured v0).1 in
            let s1 = redeem_step-session env captured v0 ∙ left in
            after_both P (login_step env captured v1) _
              (λ e h. inr ((e, refl), login_step-session env captured v1 ∙ s1))
              λ auth _.
                let v2 = (login_step env captured v1).1 in
                let s2 = login_step-session env captured v1 ∙ s1 in
                after_both P (join_step env captured skip token auth v2) _
                  (λ e h. inr ((e, refl), join_step-session env captured skip token auth v2 ∙ s2))
                  λ res h.
                    let v3 = (join_step env captured skip token auth v2).1 in
                    inl (
                      res,
                      join_step-LetIn env captured skip token auth v2 res h,
                      settled-tokens env captured res auth (store_joined env captured res v3)
                          ∙ store_joined-tokens env captured res v3,
                    )

-- The outer `catch` and `finally`.
abbrev closed : Env → World → Outcome (Unit {0}) × World → Outcome (Unit {0}) × World
closed env captured r =
    let q = rescue r (rethrow_after env (offer_reclaim env captured)) in
    (q.0, set_joining env false q.1)

closed-ends :
    (env : Env) (captured : World) (before : Option JoinResp × Text)
    (r : Outcome (Unit {0}) × World)
    → Entered env captured r.1 ⊎ Refused before r
    → Entered env captured (closed env captured r).1 ⊎ Refused before (closed env captured r)
closed-ends env captured before (ok u, v) (inl h) = inl h
closed-ends env captured before (ok u, v) (inr h) = inr h
closed-ends env captured before (thrown e, v) (inl (res, asked, h)) =
    inl (res, asked, offer_reclaim-tokens env captured v e ∙ h)
closed-ends env captured before (thrown e, v) (inr (t, h)) = inr (
  (e, refl),
  ap (λ (k : Option JoinResp × (Text × Text)). (k.0, k.1.0)) (offer_reclaim-tokens env captured v e)
      ∙ h,
)

-- Every request is answered or refused. A join by a named user while none runs takes its flag back.
-- Either it leaves a session that the server has answered a join of this user with, that session's
-- token, and the host's token of the answer or none, also where a later step throws. Or it throws,
-- and then the session and its token are the ones of before, or there are none if the render that it
-- was called from was in a room, which has then been left.
pub join_room-ends :
    (env : Env) (captured : World) (skip : Bool) (w : World)
    → captured.room.joining ≡ false
    → is_empty (trim captured.user_name) ≡ false
    → let r = join_room env captured skip w in
      (r.1.room.joining ≡ false)
      × (Entered env captured r.1 ⊎ Refused (session_before captured w) r)
unfolding join_room
join_room-ends env captured skip w idle named =
    let body = join_body env captured skip (set_joining env true w) in
    let ends =
      closed-ends env captured (session_before captured w) body
        (join_body-ends env captured skip (set_joining env true w)) in
    rw (idle, named) (refl, ends)
