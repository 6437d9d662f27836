-- ===== src/Stage/Link/Recovery.antt =====
-- MainStage.tsx and Layout.tsx: an issue with the signal, and how the layout answers it.
use ivena_meet.Base.{
  ltb, is_empty, Text, codes, ℕ, ◌+◌, ◌≡◌, refl, ◌∙◌, true, false, Option, some, [], ◌∷◌, ◌++◌,
  arith,
}
use ivena_meet.Types.{JoinResp}
use ivena_meet.Layout.Signal.{Signal, recover_livekit_signal, recovery_failed}
use ivena_meet.Stage.Link.{Link, handle_disconnected, is_signal_issue, handle_error}

in_cooldown :
    (joined : Option JoinResp) (token reason : Text) (now : ℕ) (s : Signal)
    → ltb now s.cooldown_until ≡ true
    → (recover_livekit_signal joined token reason now s).calls ≡ s.calls
unfolding recover_livekit_signal
in_cooldown joined token reason now s h = ground (arith, h)

started :
    (j : JoinResp) (token reason : Text) (now : ℕ) (s : Signal)
    → is_empty token ≡ false
    → s.in_flight ≡ false
    → ltb now s.cooldown_until ≡ false
    → let t = recover_livekit_signal (some j) token reason now s in
      (t.calls ≡ now ∷ s.calls) × (t.cooldown_until ≡ now + 6000)
unfolding recover_livekit_signal
started j token reason now s a b c = simp (a, b, c) (refl, refl)

issues_lem :
    (message : Text) (l : Link)
    → is_signal_issue message ≡ true
    → let m = handle_disconnected (handle_error message l) in
      (m.issues ≡ (l.issues ++ message ∷ []) ++ codes "disconnected_after_signal_error" ∷ [])
      × ((handle_disconnected m).issues ≡ m.issues)
unfolding handle_error handle_disconnected
issues_lem message l h = simp h (refl, refl)

-- A session is there, no recovery runs and the last one is six seconds ago. An error of the signal
-- and the disconnection that follows it are both told to the layout, and a further disconnection is
-- not. The layout sends one request, at the error: none for the disconnection if it comes within six
-- seconds, even if the first request has failed by then.
pub recovers_once :
    (message token failure : Text) (j : JoinResp) (now later : ℕ) (l : Link) (s : Signal)
    → is_signal_issue message ≡ true
    → is_empty token ≡ false
    → s.in_flight ≡ false
    → ltb now s.cooldown_until ≡ false
    → ltb later (now + 6000) ≡ true
    → let m = handle_disconnected (handle_error message l) in
      let t = recover_livekit_signal (some j) token message now s in
      let again =
        recover_livekit_signal (some j) token (codes "disconnected_after_signal_error") later in
      (m.issues ≡ (l.issues ++ message ∷ []) ++ codes "disconnected_after_signal_error" ∷ [])
      × ((handle_disconnected m).issues ≡ m.issues)
      × (t.calls ≡ now ∷ s.calls)
      × ((again t).calls ≡ now ∷ s.calls)
      × ((again (recovery_failed failure t)).calls ≡ now ∷ s.calls)
unfolding recovery_failed
recovers_once message token failure j now later l s issue full idle over soon =
    let (a, b) = issues_lem message l issue in
    let (c, d) = started j token message now s full idle over in
    let t = recover_livekit_signal (some j) token message now s in
    let held : ltb later t.cooldown_until ≡ true = rw d soon in
    let reason = codes "disconnected_after_signal_error" in
    (
      a,
      b,
      c,
      in_cooldown (some j) token reason later t held ∙ c,
      in_cooldown (some j) token reason later (recovery_failed failure t) held ∙ c,
    )
