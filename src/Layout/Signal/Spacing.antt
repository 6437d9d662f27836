-- ===== src/Layout/Signal/Spacing.antt =====
-- Layout.tsx: the recovery of the signal, over any run of issues and replies.
use ivena_meet.Base.{
  ltb, ◌==◌, if◌then◌else◌, Bool-cases, is_empty, Text, ℕ, ◌+◌, ◌≤◌, ◌≡◌, refl, inl, inr, false,
  not, ◌||◌, Option, none, List, [], ◌∷◌, arith,
}
use ivena_meet.Types.{JoinResp, ReconnectResp}
use ivena_meet.Layout.Signal.{
  Signal, is_there, recover_livekit_signal, recovery_succeeded, recovery_failed,
}

-- A reply comes only to a call that is pending.
pub data SignalEvent : Type 0 where
  issue : Option JoinResp → Text → Text → ℕ → SignalEvent
  replied : ReconnectResp → SignalEvent
  refused : Text → SignalEvent

unfoldable pub signal_step : Signal → SignalEvent → Signal
unfolding recover_livekit_signal recovery_succeeded recovery_failed
signal_step s (issue joined token reason now) = recover_livekit_signal joined token reason now s
signal_step s (replied res) = if s.pending == 0 then s else recovery_succeeded res s
signal_step s (refused detail) = if s.pending == 0 then s else recovery_failed detail s

unfoldable pub signal_run : Signal → List SignalEvent → Signal
unfolding signal_step
signal_run s [] = s
signal_run s (e ∷ es) = signal_run (signal_step s e) es

-- Each call comes at least six seconds after the one before.
abbrev pub Spaced : List ℕ → Type 0
Spaced [] = Unit
Spaced (t ∷ []) = Unit
Spaced (t ∷ u ∷ ts) = (u + 6000 ≤ t) × Spaced (u ∷ ts)

abbrev CooldownFits : ℕ → List ℕ → Type 0
CooldownFits c [] = Unit
CooldownFits c (t ∷ ts) = c ≡ t + 6000

pub record SignalFits (s : Signal) : Type 0 where
  pub one_pending : s.pending ≡ (if s.in_flight then 1 else 0)
  pub cooldown : CooldownFits s.cooldown_until s.calls
  pub spaced : Spaced s.calls

Spaced-cons :
    (c now : ℕ) (ts : List ℕ)
    → CooldownFits c ts
    → Spaced ts
    → ltb now c ≡ false
    → Spaced (now ∷ ts)
Spaced-cons c now [] f s h = tt
Spaced-cons c now (t ∷ ts) f s h = (ground (arith, f, h), s)

issue-SignalFits :
    (joined : Option JoinResp) (token reason : Text) (now : ℕ) (s : Signal)
    → SignalFits s
    → SignalFits (recover_livekit_signal joined token reason now s)
unfolding recover_livekit_signal
issue-SignalFits joined token reason now s f =
    elim (Bool-cases (not (is_there joined) || is_empty token)) [
      | inl a ↦ rw a f
      | inr a ↦ elim (Bool-cases s.in_flight) [
        | inl b ↦ simp (a, b) f
        | inr b ↦ elim (Bool-cases (ltb now s.cooldown_until)) [
          | inl c ↦ simp (a, b, c) f
          | inr c ↦
              simp (a, b, c)
                (record {
                  one_pending = ground (arith, f.one_pending, b);
                  cooldown = refl;
                  spaced = Spaced-cons s.cooldown_until now s.calls f.cooldown f.spaced c;
                })
        ]
      ]
    ]

signal_step-SignalFits :
    (s : Signal) (e : SignalEvent) → SignalFits s → SignalFits (signal_step s e)
unfolding signal_step recovery_succeeded recovery_failed
signal_step-SignalFits s (issue joined token reason now) f =
    issue-SignalFits joined token reason now s f
signal_step-SignalFits s (replied res) f = elim (Bool-cases (s.pending == 0)) [
  | inl e ↦ rw e f
  | inr e ↦ rw e (record {
    one_pending = ground (arith, f.one_pending, e);
    cooldown = f.cooldown;
    spaced = f.spaced;
  })
]
signal_step-SignalFits s (refused detail) f = elim (Bool-cases (s.pending == 0)) [
  | inl e ↦ rw e f
  | inr e ↦ rw e (record {
    one_pending = ground (arith, f.one_pending, e);
    cooldown = f.cooldown;
    spaced = f.spaced;
  })
]

-- From the first render on, at most one request for a new token is pending, and only while the flag
-- says so; and any two requests that follow one another are at least six seconds apart, in whatever
-- order issues and replies come and whatever times the clock shows.
pub signal_run-SignalFits :
    (s : Signal) (es : List SignalEvent) → SignalFits s → SignalFits (signal_run s es)
unfolding signal_run
signal_run-SignalFits s [] f = f
signal_run-SignalFits s (e ∷ es) f =
    signal_run-SignalFits (signal_step s e) es (signal_step-SignalFits s e f)

signal_step-joined_none :
    (s : Signal) (e : SignalEvent) → s.joined ≡ none → (signal_step s e).joined ≡ none
unfolding signal_step recover_livekit_signal recovery_succeeded recovery_failed
signal_step-joined_none s (issue joined token reason now) h = ground (arith, h)
signal_step-joined_none s (replied res) h = ground (arith, h)
signal_step-joined_none s (refused detail) h = ground (arith, h)

-- Once the session is gone, no issue and no reply, however late, brings it back.
pub signal_run-joined_none :
    (s : Signal) (es : List SignalEvent) → s.joined ≡ none → (signal_run s es).joined ≡ none
unfolding signal_run
signal_run-joined_none s [] h = h
signal_run-joined_none s (e ∷ es) h =
    signal_run-joined_none (signal_step s e) es (signal_step-joined_none s e h)
