-- ===== src/Stage/Scene/Exchange.antt =====
-- MainStage.tsx: a member who asks for a feature, and the host who answers.
use ivena_meet.Base.{
  is_empty, Text, text_eq_iff, text_eq_refl, pos, ℕ, ◌≡◌, refl, sym, ap, ◌∙◌, Bool, true, false,
  ◌||◌, some, List, [], ◌∷◌, ◌++◌, arith,
}
use ivena_meet.Types.{
  StageFeature, camera, screen_share, is_host, StageRequestPayload, StageDecisionPayload,
  StageControlPayload, stage_request, stage_decision,
}
use ivena_meet.Stage.Json.{Codec}
use ivena_meet.Stage.Scene.Asking.{
  request_stage_access, publish_stage_control, request_sent, decision_on, decide_stage_access,
  decision_sent,
}
use ivena_meet.Stage.Scene.{
  FeatureFlags, flag_of, with_flag, LocalParticipant, SceneProps, permission_change, Scene,
  without_request, on_stage_request, on_stage_decision, on_stage_control, stage_control_topic,
  on_data,
}
use ivena_meet.Stage.Scene.Events.{
  SceneEvent, received, asked, ask_published, decided_on, permission_changed, decision_published,
  asking, scene_step, scene_run,
}
use ivena_meet.Stage.Parse.{write_stage_control, parse-write_stage_control}
use ivena_meet.Stage.Scene.Requests.{count_request, count-without}

-- What a member and a host of one room have, each with a session.
pub record Meeting : Type 0 where
  pub member_props : SceneProps
  pub host_props : SceneProps
  pub asker : LocalParticipant
  pub answerer : LocalParticipant
  pub same_room : member_props.room_id ≡ host_props.room_id
  pub asker_role : is_host member_props.role ≡ false
  pub answerer_role : is_host host_props.role ≡ true
  pub asker_here : member_props.local_participant ≡ some asker
  pub answerer_here : host_props.local_participant ≡ some answerer
  pub asker_named : is_empty asker.identity ≡ false

abbrev with_published : List ℕ → Scene → Scene
with_published bytes s = record s { published = s.published ++ bytes ∷ [] }

publish_lem :
    (codec : Codec) (p : SceneProps) (l : LocalParticipant) (c : StageControlPayload) (s : Scene)
    → p.local_participant ≡ some l
    → (publish_stage_control codec p c s).1 ≡ with_published (write_stage_control codec c) s
unfolding publish_stage_control
publish_lem codec p l c s h = simp (h) refl

-- A message on the topic of the stage's control is handled as what was written.
on_data-write :
    (codec : Codec) (p : SceneProps) (c : StageControlPayload) (s : Scene)
    → on_data codec p (write_stage_control codec c) (some stage_control_topic) s
      ≡ on_stage_control p (some c) s
unfolding on_data
on_data-write codec p c s = ap (λ c. on_stage_control p c s) (parse-write_stage_control codec c)

count_request-without :
    (id : Text) (rs : List StageRequestPayload) → count_request id (without_request id rs) ≡ 0
count_request-without id rs = ground (arith, count-without id id rs, text_eq_refl id)

flag-with_flag :
    (f : StageFeature) (b : Bool) (fs : FeatureFlags) → flag_of f (with_flag f b fs) ≡ b
flag-with_flag camera b fs = refl
flag-with_flag screen_share b fs = refl

module _ (codec : Codec) (g : Meeting) (f : StageFeature) (id : Text) (seconds later : ℕ) where
  -- The request that the member sends, and the answer to it.
  abbrev pub request : StageRequestPayload
  request = record {
    room_id = g.member_props.room_id;
    request_id = id;
    target_user = g.asker.identity;
    feature = f;
    created_at = pos seconds;
  }

  abbrev pub answer : Bool → StageDecisionPayload
  answer verdict = decision_on g.host_props request verdict later

  abbrev pub request_bytes : List ℕ
  request_bytes = write_stage_control codec (stage_request request)

  abbrev pub answer_bytes : Bool → List ℕ
  answer_bytes verdict = write_stage_control codec (stage_decision (answer verdict))

  -- The events at the member and at the host, in their order.
  abbrev pub asked_events : List SceneEvent
  asked_events = asked f id seconds ∷ ask_published f ∷ []

  abbrev pub answered_events : Bool → List SceneEvent
  answered_events verdict =
      received request_bytes (some stage_control_topic)
      ∷ decided_on request verdict
      ∷ permission_changed request verdict later
      ∷ decision_published request verdict
      ∷ []

  request_made :
      (m : Scene)
      → flag_of f m.pending_stage_access ≡ false
      → request_stage_access g.member_props f id seconds m ≡ (some request, m)
  unfolding request_stage_access
  request_made m h = simp (g.asker_role, g.asker_here, g.asker_named, h) refl

  pub member_asks :
      (m : Scene)
      → flag_of f m.pending_stage_access ≡ false
      → scene_run codec g.member_props m asked_events
        ≡ request_sent f (with_published request_bytes m)
  unfolding scene_run scene_step
  member_asks m h =
      ap (λ r. request_sent f (asking codec g.member_props r)) (request_made m h)
      ∙ ap (request_sent f)
          (publish_lem codec g.member_props g.asker (stage_request request) m g.asker_here)

  -- What the host's state is before the answer has been published.
  abbrev shown : Scene → Scene
  shown s = on_stage_request g.host_props request s

  host_sees :
      (s : Scene)
      → scene_step codec g.host_props s (received request_bytes (some stage_control_topic))
        ≡ shown s
  unfolding scene_step on_stage_control
  host_sees s =
      on_data-write codec g.host_props (stage_request request) s
      ∙ rw ((text_eq_iff _ _).1 g.same_room) refl

  host_run :
      (verdict : Bool) (s : Scene)
      → scene_run codec g.host_props s (answered_events verdict)
        ≡ decision_sent request verdict
            (with_published (answer_bytes verdict) (decide_stage_access request verdict (shown s)))
  unfolding scene_run scene_step
  host_run verdict s =
      ap
        (λ t.
          decision_sent request verdict
            (publish_stage_control codec g.host_props (stage_decision (answer verdict))
              (decide_stage_access request verdict t)).1)
        (host_sees s)
      ∙ ap (decision_sent request verdict) (
          publish_lem codec g.host_props g.answerer (stage_decision (answer verdict))
            (decide_stage_access request verdict (shown s)) g.answerer_here)

  member_hears :
      (verdict : Bool) (m : Scene)
      → scene_step codec g.member_props m
          (received (answer_bytes verdict) (some stage_control_topic))
        ≡ on_stage_decision g.member_props (answer verdict) m
  unfolding scene_step on_stage_control decision_on
  member_hears verdict m =
      on_data-write codec g.member_props (stage_decision (answer verdict)) m
      ∙ rw ((text_eq_iff _ _).1 (sym g.same_room)) refl

  member_after :
      (verdict : Bool) (m : Scene)
      → let t = on_stage_decision g.member_props (answer verdict) m in
        (flag_of f t.stage_permission ≡ (verdict || flag_of f m.stage_permission))
        × (flag_of f t.pending_stage_access ≡ false)
  unfolding on_stage_decision decision_on
  member_after true m =
      simp (g.asker_here, text_eq_refl g.asker.identity)
        (flag-with_flag f true m.stage_permission, flag-with_flag f false m.pending_stage_access)
  member_after false m =
      simp (g.asker_here, text_eq_refl g.asker.identity)
        (refl, flag-with_flag f false m.pending_stage_access)

  host_answers :
      (verdict : Bool) (s : Scene)
      → let t = scene_run codec g.host_props s (answered_events verdict) in
        (t.published ≡ s.published ++ answer_bytes verdict ∷ [])
        × (count_request id t.host_stage_requests ≡ 0)
        × (t.calls ≡ s.calls ++ permission_change g.asker.identity f verdict ∷ [])
  unfolding decision_sent decide_stage_access on_stage_request
  host_answers verdict s =
      let q = host_run verdict s in
      (
        ap (λ t. t.published) q ∙ rw (g.answerer_role) refl,
        ap (λ t. count_request id t.host_stage_requests) q ∙ count_request-without id _,
        ap (λ t. t.calls) q ∙ rw (g.answerer_role) refl,
      )

  member_done :
      (verdict : Bool) (m : Scene)
      → flag_of f m.pending_stage_access ≡ false
      → scene_run codec g.member_props m (
          asked f id seconds
          ∷ ask_published f
          ∷ received (answer_bytes verdict) (some stage_control_topic)
          ∷ [])
        ≡ on_stage_decision g.member_props
            (answer verdict)
            (request_sent f (with_published request_bytes m))
  unfolding scene_run
  member_done verdict m h =
      ap
        (λ t.
          scene_step codec g.member_props t
            (received (answer_bytes verdict) (some stage_control_topic)))
        (member_asks m h)
      ∙ member_hears verdict (request_sent f (with_published request_bytes m))

  -- A member and a host are in one room with a session each, and no request for the feature is
  -- pending at the member. The member asks: the request is published. The host receives it and
  -- answers: the server is told of the verdict, the answer is published, and the request is on the
  -- host's list no more. The member receives the answer: the feature is allowed if the host approved
  -- it, and else as it was before, and nothing is pending.
  pub exchange_lem :
      (verdict : Bool) (m s : Scene)
      → flag_of f m.pending_stage_access ≡ false
      → let a = scene_run codec g.member_props m asked_events in
        let b =
          scene_run codec g.member_props a
            (received (answer_bytes verdict) (some stage_control_topic) ∷ []) in
        let t = scene_run codec g.host_props s (answered_events verdict) in
        (a.published ≡ m.published ++ request_bytes ∷ [])
        × (t.published ≡ s.published ++ answer_bytes verdict ∷ [])
        × (t.calls ≡ s.calls ++ permission_change g.asker.identity f verdict ∷ [])
        × (count_request id t.host_stage_requests ≡ 0)
        × (flag_of f b.stage_permission ≡ (verdict || flag_of f m.stage_permission))
        × (flag_of f b.pending_stage_access ≡ false)
  unfolding scene_run request_sent
  exchange_lem verdict m s h =
      let (c, d, e) = host_answers verdict s in
      let k = member_after verdict (request_sent f (with_published request_bytes m)) in
      let q = member_done verdict m h in
      (
        ap (λ t. t.published) (member_asks m h),
        c,
        e,
        d,
        ap (λ t. flag_of f t.stage_permission) q ∙ k.0,
        ap (λ t. flag_of f t.pending_stage_access) q ∙ k.1,
      )
