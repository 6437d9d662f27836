-- ===== src/Stage/Scene/Events.antt =====
-- MainStage.tsx: everything that can happen to the stage, one stretch of a handler after another.
use ivena_meet.Base.{
  Bool-cases, Text, codes, ℕ, ◌≡◌, refl, ◌∙◌, ◌⊎◌, inl, inr, Bool, true, Option, none, some, List,
  [], ◌∷◌, arith,
}
use ivena_meet.Types.{StageFeature, StageRequestPayload, stage_request, stage_decision}
use ivena_meet.World.Effect.{Outcome, ok, thrown}
use ivena_meet.Stage.Json.{Fields, lookup, Codec}
use ivena_meet.Stage.Scene.Asking.{
  request_stage_access, published_by, publish_stage_control, request_sent, request_failed,
  decision_on, decide_stage_access, decision_sent, decision_failed,
}
use ivena_meet.Stage.Scene.{
  LocalParticipant, SceneProps, Scene, reset_scene, without_request, is_in_room, on_stage_control,
  on_chat_data, other_topic, is_control_topic, on_data,
}
use ivena_meet.Stage.Scene.Toggles.{Switch, toggle_camera, toggle_share, switched}
use ivena_meet.Stage.Parse.{parse_stage_control, parse_realtime_chat, write_stage_control}

-- The stretches of the handlers, as they come in one after the other.
pub data SceneEvent : Type 0 where
  received : List ℕ → Option Text → SceneEvent
  asked : StageFeature → Text → ℕ → SceneEvent
  ask_published : StageFeature → SceneEvent
  ask_refused : Text → SceneEvent
  decided_on : StageRequestPayload → Bool → SceneEvent
  permission_changed : StageRequestPayload → Bool → ℕ → SceneEvent
  decision_published : StageRequestPayload → Bool → SceneEvent
  decision_refused : Text → SceneEvent
  pressed_camera : SceneEvent
  pressed_share : Bool → SceneEvent
  answered : Switch → Outcome (Unit {0}) → SceneEvent
  renewed : SceneEvent

abbrev pub asking : Codec → SceneProps → Option StageRequestPayload × Scene → Scene
asking codec p (none, s) = s
asking codec p (some r, s) = (publish_stage_control codec p (stage_request r) s).1

module _ (codec : Codec) (p : SceneProps) where
  unfoldable pub scene_step : Scene → SceneEvent → Scene
  unfolding publish_stage_control
  scene_step s (received payload topic) = on_data codec p payload topic s
  scene_step s (asked wanted request_id seconds) =
      asking codec p (request_stage_access p wanted request_id seconds s)
  scene_step s (ask_published wanted) = request_sent wanted s
  scene_step s (ask_refused e) = request_failed e s
  scene_step s (decided_on r verdict) = decide_stage_access r verdict s
  scene_step s (permission_changed r verdict seconds) =
      (publish_stage_control codec p (stage_decision (decision_on p r verdict seconds)) s).1
  scene_step s (decision_published r verdict) = decision_sent r verdict s
  scene_step s (decision_refused e) = decision_failed e s
  scene_step s pressed_camera = (toggle_camera p s).1
  scene_step s (pressed_share has_display_media) = (toggle_share has_display_media p s).1
  scene_step s (answered c r) = switched c r s
  scene_step s renewed = reset_scene p s

  unfoldable pub scene_run : Scene → List SceneEvent → Scene
  scene_run s [] = s
  scene_run s (e ∷ es) = scene_run (scene_step s e) es

-- The requests and the permissions are as before.
abbrev pub Quiet : Scene → Scene → Type 0
Quiet s t =
    (t.host_stage_requests ≡ s.host_stage_requests) × (t.stage_permission ≡ s.stage_permission)

module _ (codec : Codec) (p : SceneProps) where
  published-Quiet :
      (l : Option LocalParticipant) (bytes : List ℕ) (s : Scene)
      → Quiet s (published_by l bytes s).1
  published-Quiet none bytes s = (refl, refl)
  published-Quiet (some l) bytes s = (refl, refl)

  request-Quiet :
      (wanted : StageFeature) (request_id : Text) (seconds : ℕ) (s : Scene)
      → Quiet s (request_stage_access p wanted request_id seconds s).1
  unfolding request_stage_access
  request-Quiet wanted request_id seconds s = ground arith

  asking-Quiet : (r : Option StageRequestPayload × Scene) → Quiet r.1 (asking codec p r)
  unfolding publish_stage_control
  asking-Quiet (none, s) = (refl, refl)
  asking-Quiet (some r, s) =
      published-Quiet p.local_participant (write_stage_control codec (stage_request r)) s

  chat-Quiet : (fs : Option Fields) (s : Scene) → Quiet s (on_chat_data p fs s)
  unfolding on_chat_data
  chat-Quiet none s = (refl, refl)
  chat-Quiet (some fs) s = elim (Bool-cases (is_in_room p.room_id (lookup (codes "room_id") fs))) [
    | inl e ↦ rw e (refl, refl)
    | inr e ↦ rw e (refl, refl)
  ]

  on_data_cases :
      (payload : List ℕ) (topic : Option Text) (s : Scene)
      → ((is_control_topic topic ≡ true)
          × (on_data codec p payload topic s
              ≡ on_stage_control p (parse_stage_control codec payload) s))
        ⊎ Quiet s (on_data codec p payload topic s)
  unfolding on_data
  on_data_cases payload topic s = elim (Bool-cases (is_control_topic topic)) [
    | inl e ↦ inl (e, rw e refl)
    | inr e ↦ elim (Bool-cases (other_topic topic)) [
      | inl h ↦ inr (simp (e, h) (refl, refl))
      | inr h ↦ inr (simp (e, h) (chat-Quiet (parse_realtime_chat codec payload) s))
    ]
  ]

  toggles-Quiet :
      (b : Bool) (s : Scene) → Quiet s (toggle_camera p s).1 × Quiet s (toggle_share b p s).1
  unfolding toggle_camera toggle_share
  toggles-Quiet b s = ground arith

  -- Every event leaves the requests and the permissions alone, is a message on the topic of the
  -- stage's control, takes one request off the list, or starts afresh.
  pub scene_step_cases :
      (s : Scene) (e : SceneEvent)
      → let t = scene_step codec p s e in
        Quiet s t
        ⊎ ((payload : List ℕ) × (topic : Option Text) × (e ≡ received payload topic)
            × (is_control_topic topic ≡ true)
            × (t ≡ on_stage_control p (parse_stage_control codec payload) s))
        ⊎ ((r : StageRequestPayload) × (t.host_stage_requests
              ≡ without_request r.request_id s.host_stage_requests)
            × (t.stage_permission ≡ s.stage_permission))
        ⊎ (t ≡ reset_scene p s)
  unfolding scene_step
  scene_step_cases s (received payload topic) = elim (on_data_cases payload topic s) [
    | inl (h, k) ↦ inr (inl (payload, topic, refl, h, k))
    | inr k ↦ inl k
  ]
  scene_step_cases s (asked wanted request_id seconds) =
      let r = request_stage_access p wanted request_id seconds s in
      let q = asking-Quiet r in
      let k = request-Quiet wanted request_id seconds s in inl (q.0 ∙ k.0, q.1 ∙ k.1)
  scene_step_cases s (ask_published wanted) = inl (unfold request_sent in (refl, refl))
  scene_step_cases s (ask_refused e) = inl (unfold request_failed in (refl, refl))
  scene_step_cases s (decided_on r verdict) = inl (unfold decide_stage_access in (refl, refl))
  scene_step_cases s (permission_changed r verdict seconds) =
      inl (unfold publish_stage_control in published-Quiet p.local_participant _ s)
  scene_step_cases s (decision_published r verdict) =
      inr (inr (inl (r, (unfold decision_sent in refl), (unfold decision_sent in refl))))
  scene_step_cases s (decision_refused e) = inl (unfold decision_failed in (refl, refl))
  scene_step_cases s pressed_camera = inl (toggles-Quiet true s).0
  scene_step_cases s (pressed_share has_display_media) = inl (toggles-Quiet has_display_media s).1
  scene_step_cases s (answered c (ok u)) = inl (unfold switched in (refl, refl))
  scene_step_cases s (answered c (thrown e)) = inl (unfold switched in (refl, refl))
  scene_step_cases s renewed = inr (inr (inr refl))
