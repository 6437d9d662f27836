-- ===== src/Stage/Scene/Requests.antt =====
-- MainStage.tsx: the requests that a host has on the stage.
use ivena_meet.Base.{
  if◌then◌else◌, Bool-cases, length, take, All, All-take, length-take_le, text_eq, Text,
  text_eq_iff, ℕ, zero, suc, ◌≤◌, ◌≡◌, sym, subst, inl, inr, true, Option, none, some, List, [],
  ◌∷◌, arith,
}
use ivena_meet.Types.{
  is_host, StageRequestPayload, StageDecisionPayload, StageControlPayload, stage_request,
  stage_decision,
}
use ivena_meet.Stage.Json.{Codec}
use ivena_meet.Stage.Parse.{parse_stage_control}
use ivena_meet.Stage.Scene.{
  SceneProps, Scene, reset_scene, max_host_stage_requests, without_request, on_stage_request,
  on_stage_decision, on_stage_control,
}
use ivena_meet.Stage.Scene.Events.{SceneEvent, scene_step, scene_run, scene_step_cases}

-- How many of the requests have this identifier.
abbrev pub count_request : Text → List StageRequestPayload → ℕ
count_request id [] = 0
count_request id (r ∷ rs) =
    let rest = count_request id rs in if text_eq r.request_id id then suc rest else rest

-- At most twelve requests, no identifier twice, and all for this room.
pub record RequestsFit (room : Text) (rs : List StageRequestPayload) : Type 0 where
  pub few : length rs ≤ 12
  pub single : (id : Text) → count_request id rs ≤ 1
  pub here : All (λ r. r.room_id ≡ room) rs

pub count-without :
    (id k : Text) (rs : List StageRequestPayload)
    → count_request k (without_request id rs) ≡ (if text_eq id k then 0 else count_request k rs)
count-without id k [] = ground arith
count-without id k (r ∷ rs) = ground (
  arith,
  count-without id k rs,
  text_eq_iff r.request_id id,
  text_eq_iff r.request_id k,
  text_eq_iff id k,
)

count-take :
    (n : ℕ) (k : Text) (rs : List StageRequestPayload)
    → count_request k (take n rs) ≤ count_request k rs
count-take zero k rs = omega arith
count-take (suc n) k [] = omega arith
count-take (suc n) k (r ∷ rs) = ground (arith, count-take n k rs)

All-without :
    (P : StageRequestPayload → Type 0) (id : Text) (rs : List StageRequestPayload)
    → All P rs
    → All P (without_request id rs)
All-without P id [] h = tt
All-without P id (r ∷ rs) h = elim (Bool-cases (text_eq r.request_id id)) [
  | inl e ↦ rw e (All-without P id rs h.1)
  | inr e ↦ rw e (h.0, All-without P id rs h.1)
]

length-without :
    (id : Text) (rs : List StageRequestPayload) → length (without_request id rs) ≤ length rs
length-without id [] = omega arith
length-without id (r ∷ rs) = ground (arith, length-without id rs)

without-RequestsFit :
    (room id : Text) (rs : List StageRequestPayload)
    → RequestsFit room rs
    → RequestsFit room (without_request id rs)
without-RequestsFit room id rs f = record {
  few = omega (arith, f.few, length-without id rs);
  single = λ k. ground (arith, count-without id k rs, f.single k);
  here = All-without _ id rs f.here;
}

first-RequestsFit :
    (room : Text) (r : StageRequestPayload) (rs : List StageRequestPayload)
    → r.room_id ≡ room
    → RequestsFit room rs
    → RequestsFit room (take max_host_stage_requests (r ∷ without_request r.request_id rs))
first-RequestsFit room r rs e f =
    let rest = r ∷ without_request r.request_id rs in
    record {
      few = length-take_le 12 rest;
      single =
          λ k. ground (arith, count-take 12 k rest, count-without r.request_id k rs, f.single k);
      here = All-take _ 12 rest (e, All-without _ r.request_id rs f.here);
    }

on_decision-requests :
    (p : SceneProps) (d : StageDecisionPayload) (s : Scene)
    → text_eq d.room_id p.room_id ≡ true
    → (on_stage_control p (some (stage_decision d)) s).host_stage_requests
      ≡ without_request d.request_id s.host_stage_requests
unfolding on_stage_control on_stage_decision
on_decision-requests p d s e = rw e (ground arith)

module _ (codec : Codec) (p : SceneProps) where
  on_stage_control-RequestsFit :
      (c : Option StageControlPayload) (s : Scene)
      → RequestsFit p.room_id s.host_stage_requests
      → RequestsFit p.room_id (on_stage_control p c s).host_stage_requests
  unfolding on_stage_control on_stage_request on_stage_decision
  on_stage_control-RequestsFit none s f = f
  on_stage_control-RequestsFit (some (stage_request r)) s f =
      elim (Bool-cases (text_eq r.room_id p.room_id)) [
        | inr e ↦ rw e f
        | inl e ↦ elim (Bool-cases (is_host p.role)) [
          | inr h ↦ simp (e, h) f
          | inl h ↦
              simp (e, h)
                (first-RequestsFit p.room_id r s.host_stage_requests
                  ((text_eq_iff r.room_id p.room_id).0 e) f)
        ]
      ]
  on_stage_control-RequestsFit (some (stage_decision d)) s f =
      let fit = without-RequestsFit p.room_id d.request_id s.host_stage_requests f in
      elim (Bool-cases (text_eq d.room_id p.room_id)) [
        | inr e ↦ rw e f
        | inl e ↦ subst (RequestsFit p.room_id) (sym (on_decision-requests p d s e)) fit
      ]

  scene_step-RequestsFit :
      (s : Scene) (e : SceneEvent)
      → RequestsFit p.room_id s.host_stage_requests
      → RequestsFit p.room_id (scene_step codec p s e).host_stage_requests
  unfolding reset_scene
  scene_step-RequestsFit s e f = elim (scene_step_cases codec p s e) [
    | inl k ↦ subst (RequestsFit p.room_id) (sym k.0) f
    | inr (inl (payload, topic, o, h, k)) ↦
        rw k (on_stage_control-RequestsFit (parse_stage_control codec payload) s f)
    | inr (inr (inl (r, k, q))) ↦
        subst (RequestsFit p.room_id) (sym k)
          (without-RequestsFit p.room_id r.request_id s.host_stage_requests f)
    | inr (inr (inr k)) ↦ rw k (record { few = omega arith; single = λ id. omega arith; here = tt })
  ]

  -- From the first render on, a host has at most twelve requests, all for the room and none twice.
  pub scene_run-RequestsFit :
      (s : Scene) (es : List SceneEvent)
      → RequestsFit p.room_id s.host_stage_requests
      → RequestsFit p.room_id (scene_run codec p s es).host_stage_requests
  unfolding scene_run
  scene_run-RequestsFit s [] f = f
  scene_run-RequestsFit s (e ∷ es) f =
      scene_run-RequestsFit (scene_step codec p s e) es (scene_step-RequestsFit s e f)
