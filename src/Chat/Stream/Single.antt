-- ===== src/Chat/Stream/Single.antt =====
-- useChatState.ts: how many streams are open, and how long the effect waits between them.
use ivena_meet.Base.{
  Text, ℤ, ℕ, suc, ◌≤◌, ◌≡◌, ◌≢◌, ◌⊎◌, true, false, Option, none, some, List, [], ◌∷◌, arith,
}
use ivena_meet.Types.{MessageItem}
use ivena_meet.Chat.Stream.{
  Streaming, connect, abort, close, on_message, on_lagged, on_resynced, on_resync_failed, on_error,
  drop_last, on_retry_timer, cleanup,
}

-- The steps of the effect. An error is reported by the stream that the effect holds, and a timer
-- fires only if one is set.
pub data StreamStep : Streaming → Streaming → Type 0 where
  message : (s : Streaming) (item : MessageItem) → StreamStep s (on_message item s)
  lagged : (s t : Streaming) (after : Option ℤ) → on_lagged s ≡ some (after, t) → StreamStep s t
  resynced :
      (s : Streaming) (skipped : ℕ) (items : List MessageItem)
      → StreamStep s (on_resynced skipped items s)
  resync_failed : (s : Streaming) (reason : Text) → StreamStep s (on_resync_failed reason s)
  failed :
      (s : Streaming) (k : ℕ) (reason : Text)
      → s.close_stream ≡ some k
      → StreamStep s (on_error reason s)
  retried : (s : Streaming) → s.retry_timers ≢ [] → StreamStep s (on_retry_timer s)
  cleaned : (s : Streaming) → StreamStep s (cleanup s)

pub data StreamReach (s : Streaming) : Streaming → Type 0 where
  here : StreamReach s s
  next : {t u : Streaming} → StreamReach s t → StreamStep t u → StreamReach s u

-- Either the effect holds the one open stream and no timer runs, or no stream is open and at most
-- one timer runs; after the cleanup none is open. The delay stays between one and ten seconds.
pub record IsSingle (s : Streaming) : Type 0 where
  pub held :
      ((k : ℕ) × (s.close_stream ≡ some k)
        × (s.retry_timers ≡ [])
        × ((s.open_streams ≡ k ∷ []) ⊎ ((s.stopped ≡ true) × (s.open_streams ≡ []))))
      ⊎ ((s.close_stream ≡ none)
          × (s.open_streams ≡ [])
          × ((s.retry_timers ≡ []) ⊎ ((t : ℕ) × (s.retry_timers ≡ t ∷ []))))
  pub ended : s.stopped ≡ true → s.open_streams ≡ []
  pub least : 1000 ≤ s.retry_delay_ms
  pub most : s.retry_delay_ms ≤ 10000

abort_self : (k : ℕ) → abort k (k ∷ []) ≡ []
unfolding abort
abort_self k = ground arith

-- The parts that `IsSingle` speaks of.
abbrev SameStreams : Streaming → Streaming → Type 0
SameStreams s t =
    (t.close_stream ≡ s.close_stream)
    × (t.open_streams ≡ s.open_streams)
    × (t.retry_timers ≡ s.retry_timers)
    × (t.stopped ≡ s.stopped)
    × (t.retry_delay_ms ≡ s.retry_delay_ms)

-- A single open stream that reports a second error before the timer fires, as `streamMessages` does
-- for two malformed messages in one chunk, makes the effect open two streams, of which the cleanup
-- closes only the later one.
pub two_errors_leak :
    (s : Streaming) (k : ℕ) (first second : Text)
    → s.stopped ≡ false
    → s.close_stream ≡ some k
    → s.open_streams ≡ k ∷ []
    → s.retry_timers ≡ []
    → let t = on_retry_timer (on_retry_timer (on_error second (on_error first s))) in
      (t.open_streams ≡ suc s.next_stream ∷ s.next_stream ∷ [])
      × ((cleanup t).open_streams ≡ s.next_stream ∷ [])
unfolding on_error on_retry_timer cleanup close abort connect drop_last
two_errors_leak s k first second h1 h2 h3 h4 = ground (arith, abort_self k)
