-- ===== src/Room/Retry.antt =====
-- useRoomState.ts: which requests a join sends.
use ivena_meet.Base.{
  Bool-cases, trim, Text, ◌≡◌, refl, ◌⊎◌, inl, inr, Bool, true, false, not, ◌&&◌, Option, [], ◌∷◌,
  ◌++◌, arith,
}
use ivena_meet.Types.{Role, host, is_host, ForceReclaimResp}
use ivena_meet.World.{Call, World}
use ivena_meet.World.Env.{Env, request}
use ivena_meet.Api.Client.{HttpRequest, authorization}
use ivena_meet.Api.Client.Endpoints.{join, force_reclaim_host_lock}
use ivena_meet.Room.{effective_role}
use ivena_meet.Room.Enter.{join_payload, join_step}
use ivena_meet.World.Effect.{ok, thrown, Outcome-cases}
use ivena_meet.Room.Urls.{is_identity_in_use_error}

-- A request as a render sends it.
abbrev pub sent : World → HttpRequest → Call
sent captured r = record {
  request = r;
  authorized =
      authorization
        (record {
          control_token = captured.host_session_token;
          app_session_token = captured.app_session_token;
        })
        r;
}

allowed :
    (r : Role) (skip taken : Bool)
    → (is_host r && (not skip && taken)) ≡ true
    → (r ≡ host) × (skip ≡ false) × (taken ≡ true)
allowed r skip taken h = ground arith

-- The join asks to join, and asks no more unless that is refused since the identity of a host is
-- taken and no reclaim went before; then it asks to reclaim the identity, and joins once more only
-- if that worked.
pub join_step-calls :
    (env : Env) (captured : World) (skip : Bool) (token : Text) (auth : Option Text) (w : World)
    → let joining = join (join_payload env captured token) auth in
      let reclaiming =
        force_reclaim_host_lock
          (record { room_id = trim captured.room_id; host_identity = trim captured.user_name })
          auth in
      let once = w.calls ++ sent captured joining ∷ [] in
      let twice = once ++ sent captured reclaiming ∷ [] in
      let after = (join_step env captured skip token auth w).1.calls in
      (after ≡ once)
      ⊎ ((effective_role captured ≡ host)
          × (skip ≡ false)
          × ((t : Text) × (env.on_join w.calls joining ≡ thrown t)
              × (is_identity_in_use_error env.to_lower_case t ≡ true))
          × ((after ≡ twice)
              ⊎ (((got : ForceReclaimResp) × (env.on_force_reclaim once reclaiming ≡ ok got))
                  × (after ≡ twice ++ sent captured joining ∷ []))))
unfolding join_step request
join_step-calls env captured skip token auth w =
    let joining = join (join_payload env captured token) auth in
    let w1 = record w { calls = w.calls ++ sent captured joining ∷ [] } in
    let reclaiming =
      force_reclaim_host_lock
        (record { room_id = trim captured.room_id; host_identity = trim captured.user_name })
        auth in
    let is_taken = is_identity_in_use_error env.to_lower_case in
    elim (Outcome-cases (env.on_join w.calls joining)) [
      | inl (res, e) ↦ rw e (inl refl)
      | inr (t, e) ↦
          elim (Bool-cases (is_host (effective_role captured) && (not skip && is_taken t))) [
            | inr f ↦ rw (e, f) (inl refl)
            | inl g ↦
                let (h, k, i) = allowed (effective_role captured) skip (is_taken t) g in
                elim (Outcome-cases (env.on_force_reclaim w1.calls reclaiming)) [
                  | inl (got, r) ↦ rw (e, g, r) (inr (h, k, (t, refl, i), inr ((got, refl), refl)))
                  | inr (u, r) ↦ rw (e, g, r) (inr (h, k, (t, refl, i), inl refl))
                ]
          ]
    ]
