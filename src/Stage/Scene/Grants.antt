-- ===== src/Stage/Scene/Grants.antt =====
-- MainStage.tsx: where a permission on the stage comes from.
use ivena_meet.Base.{
  if◌then◌else◌, Bool-cases, text_eq, Text, text_eq_iff, ℕ, ◌≡◌, refl, sym, ap, ◌∙◌, inl, inr, true,
  false, Option, none, some, List, [], ◌∷◌, arith,
}
use ivena_meet.Types.{
  StageFeature, camera, screen_share, StageRequestPayload, StageDecisionPayload,
  StageControlPayload, stage_request, stage_decision,
}
use ivena_meet.Stage.Json.{Codec}
use ivena_meet.Stage.Scene.{
  FeatureFlags, flag_of, with_flag, SceneProps, Scene, permitted, reset_scene, identity_or,
  on_stage_request, on_stage_decision, on_stage_control, is_control_topic,
}
use ivena_meet.Stage.Scene.Events.{SceneEvent, received, scene_step, scene_run, scene_step_cases}
use ivena_meet.Stage.Parse.{parse_stage_control}
use mathlib.Core.List.{Memᴰ}
use mathlib.Core.List.Memᴰ.{head, tail}

-- The host's approval of this feature for this participant arrives.
abbrev pub Approves : Codec → SceneProps → StageFeature → SceneEvent → Type 0
Approves codec p f e =
    (payload : List ℕ) × (topic : Option Text) × (d : StageDecisionPayload) × (e
      ≡ received payload topic)
    × (is_control_topic topic ≡ true)
    × (parse_stage_control codec payload ≡ some (stage_decision d))
    × (d.room_id ≡ p.room_id)
    × (d.target_user ≡ identity_or [] p.local_participant)
    × (d.feature ≡ f)
    × (d.approved ≡ true)

gains :
    (f g : StageFeature) (fs : FeatureFlags)
    → flag_of f fs ≡ false
    → flag_of f (with_flag g true fs) ≡ true
    → g ≡ f
gains camera camera fs h k = refl
gains camera screen_share fs h k = ground arith
gains screen_share camera fs h k = ground arith
gains screen_share screen_share fs h k = refl

module _ (codec : Codec) (p : SceneProps) (f : StageFeature) where
  abbrev Granting : Option StageControlPayload → Type 0
  Granting c =
      (d : StageDecisionPayload) × (c ≡ some (stage_decision d))
      × (d.room_id ≡ p.room_id)
      × (d.target_user ≡ identity_or [] p.local_participant)
      × (d.feature ≡ f)
      × (d.approved ≡ true)

  on_request-permission :
      (r : StageRequestPayload) (s : Scene)
      → (on_stage_control p (some (stage_request r)) s).stage_permission ≡ s.stage_permission
  unfolding on_stage_control on_stage_request
  on_request-permission r s = ground arith

  on_decision-permission :
      (d : StageDecisionPayload) (s : Scene)
      → (on_stage_control p (some (stage_decision d)) s).stage_permission ≡ (
          if text_eq d.room_id p.room_id
          then if text_eq d.target_user (identity_or [] p.local_participant)
            then if d.approved
              then with_flag d.feature true s.stage_permission
              else s.stage_permission
            else s.stage_permission
          else s.stage_permission)
  unfolding on_stage_control on_stage_decision
  on_decision-permission d s = ground arith

  on_decision-Granting :
      (d : StageDecisionPayload) (s : Scene)
      → flag_of f s.stage_permission ≡ false
      → flag_of f (on_stage_control p (some (stage_decision d)) s).stage_permission ≡ true
      → Granting (some (stage_decision d))
  unfolding on_stage_control on_stage_decision
  on_decision-Granting d s h k =
      let q = on_decision-permission d s in
      elim (Bool-cases (text_eq d.room_id p.room_id)) [
        | inr e ↦ ground (arith, h, k, q, e)
        | inl e ↦ elim (Bool-cases (text_eq d.target_user (identity_or [] p.local_participant))) [
          | inr t ↦ ground (arith, h, k, q, e, t)
          | inl t ↦ elim (Bool-cases d.approved) [
            | inr v ↦ ground (arith, h, k, q, e, t, v)
            | inl v ↦ (
              d,
              refl,
              (text_eq_iff _ _).0 e,
              (text_eq_iff _ _).0 t,
              gains f d.feature s.stage_permission h
                  (sym (ap (flag_of f) (q ∙ simp (e, t, v) refl)) ∙ k),
              v,
            )
          ]
        ]
      ]

  on_stage_control-Granting :
      (c : Option StageControlPayload) (s : Scene)
      → flag_of f s.stage_permission ≡ false
      → flag_of f (on_stage_control p c s).stage_permission ≡ true
      → Granting c
  unfolding on_stage_control
  on_stage_control-Granting none s h k = ground arith
  on_stage_control-Granting (some (stage_request r)) s h k =
      ground (arith, h, k, on_request-permission r s)
  on_stage_control-Granting (some (stage_decision d)) s h k = on_decision-Granting d s h k

  received-Approves :
      (payload : List ℕ) (topic : Option Text) (e : SceneEvent)
      → e ≡ received payload topic
      → is_control_topic topic ≡ true
      → Granting (parse_stage_control codec payload)
      → Approves codec p f e
  received-Approves payload topic e o c (d, g, a, b, i, j) =
      (payload, topic, d, o, c, g, a, b, i, j)

  scene_step-Approves :
      (s : Scene) (e : SceneEvent)
      → flag_of f (permitted p) ≡ false
      → flag_of f s.stage_permission ≡ false
      → flag_of f (scene_step codec p s e).stage_permission ≡ true
      → Approves codec p f e
  unfolding reset_scene
  scene_step-Approves s e n h k = elim (scene_step_cases codec p s e) [
    | inl q ↦ ground (arith, h, k, q.1)
    | inr (inl (payload, topic, o, c, q)) ↦ received-Approves payload topic e o c (
        on_stage_control-Granting (parse_stage_control codec payload) s h
          (sym (ap (λ t. flag_of f t.stage_permission) q) ∙ k))
    | inr (inr (inl (r, q, o))) ↦ ground (arith, h, k, o)
    | inr (inr (inr q)) ↦ ground (arith, n, k, ap (λ t. flag_of f t.stage_permission) q)
  ]

  -- A participant whose flag of permission for a feature is not set at first, and is set after a run
  -- of events, has received on the topic of the stage's control an approval for this room, this participant
  -- and this feature.
  pub scene_run-Approves :
      (s : Scene) (es : List SceneEvent)
      → flag_of f (permitted p) ≡ false
      → flag_of f s.stage_permission ≡ false
      → flag_of f (scene_run codec p s es).stage_permission ≡ true
      → (e : SceneEvent) × Memᴰ e es × Approves codec p f e
  unfolding scene_run
  scene_run-Approves s [] n h k = ground (arith, h, k)
  scene_run-Approves s (e ∷ es) n h k =
      let t = scene_step codec p s e in
      elim (Bool-cases (flag_of f t.stage_permission)) [
        | inl g ↦ (e, head refl, scene_step-Approves s e n h g)
        | inr g ↦ let (a, m, r) = scene_run-Approves t es n g k in (a, tail m, r)
      ]
