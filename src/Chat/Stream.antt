-- ===== src/Chat/Stream.antt =====
-- useChatState.ts: the effect that keeps a message stream open. A stream that `streamMessages` has
-- opened is a number; `close_stream` is the handle that the effect holds, `open_streams` are those
-- that nothing has aborted, and a timer is a `setTimeout(connect, …)` that has not fired.
pub mod Single
use ivena_meet.Types.{MessageItem}
use ivena_meet.Base.{
  ◌==◌, if◌then◌else◌, length, to_decimal, Text, codes, ℤ, pos, ltb_ℤ, ℕ, suc, ◌*◌, min, Bool, true,
  false, ◌||◌, Option, none, some, List, [], ◌∷◌, ◌++◌, map,
}
use ivena_meet.Chat.Message.{confirmed}
use ivena_meet.Chat.State.{ChatState, push_log, merge_and_advance, on_stream_message}

pub record Streaming : Type 0 where
  pub chat : ChatState
  pub stopped : Bool
  pub close_stream : Option ℕ
  pub open_streams : List ℕ
  pub next_stream : ℕ
  pub retry_delay_ms : ℕ
  pub retry_timers : List ℕ
  pub lagged_sync_in_flight : Bool
  pub requests : List (Option ℤ)

-- `lastMessageIdRef.current > 0 ? lastMessageIdRef.current : undefined`
abbrev pub after_id : ChatState → Option ℤ
after_id c = if ltb_ℤ (pos 0) c.last_message_id then some c.last_message_id else none

unfoldable pub connect : Streaming → Streaming
connect s = if s.stopped then s else record s {
  close_stream = some s.next_stream;
  open_streams = s.next_stream ∷ s.open_streams;
  next_stream = suc s.next_stream;
  requests = s.requests ++ after_id s.chat ∷ [];
}

-- `controller.abort()` of stream `k`
unfoldable pub abort : ℕ → List ℕ → List ℕ
abort k [] = []
abort k (j ∷ js) = if j == k then abort k js else j ∷ abort k js

-- `if (closeStream) closeStream()`
unfoldable pub close : Option ℕ → List ℕ → List ℕ
unfolding abort
close none open_ones = open_ones
close (some k) open_ones = abort k open_ones

unfoldable pub on_message : MessageItem → Streaming → Streaming
unfolding on_stream_message
on_message item s = record s { chat = on_stream_message item s.chat }

-- `onLagged` until its request: the identifier to sync after, or an early return.
unfoldable pub on_lagged : Streaming → Option (Option ℤ × Streaming)
on_lagged s =
    if s.stopped || s.lagged_sync_in_flight
    then none
    else some (after_id s.chat, record s { lagged_sync_in_flight = true })

unfoldable pub on_resynced : ℕ → List MessageItem → Streaming → Streaming
unfolding merge_and_advance confirmed
on_resynced skipped items s =
    if s.stopped then record s { lagged_sync_in_flight = false } else record s {
      chat = push_log line (merge_and_advance (map confirmed items) s.chat);
      lagged_sync_in_flight = false;
    }
  where
    line : Text
    line =
        codes "chat stream lagged: skipped "
        ++ (to_decimal skipped
            ++ (codes ", resynced " ++ (to_decimal (length items) ++ codes " messages")))

unfoldable pub on_resync_failed : Text → Streaming → Streaming
on_resync_failed reason s =
    if s.stopped then record s { lagged_sync_in_flight = false } else record s {
      chat = push_log (codes "chat lagged resync failed: " ++ reason) s.chat;
      lagged_sync_in_flight = false;
    }

-- The first error since the last message is logged.
abbrev pub log_stream_error : Text → ChatState → ChatState
log_stream_error reason c =
    if c.history_sync_error_logged
    then c
    else push_log (codes "chat stream error: " ++ reason)
        (record c { history_sync_error_logged = true })

unfoldable pub on_error : Text → Streaming → Streaming
unfolding close
on_error reason s = if s.stopped then s else record s {
  chat = log_stream_error reason s.chat;
  close_stream = none;
  open_streams = close s.close_stream s.open_streams;
  retry_timers = s.retry_delay_ms ∷ s.retry_timers;
  retry_delay_ms = min (s.retry_delay_ms * 2) 10000;
}

-- The oldest timer fires.
unfoldable pub drop_last : List ℕ → List ℕ
drop_last [] = []
drop_last (t ∷ []) = []
drop_last (t ∷ u ∷ ts) = t ∷ drop_last (u ∷ ts)

unfoldable pub on_retry_timer : Streaming → Streaming
unfolding drop_last connect
on_retry_timer s = connect (record s { retry_timers = drop_last s.retry_timers })

-- What the effect returns, run when it ends. The handle is kept, as in the source.
unfoldable pub cleanup : Streaming → Streaming
unfolding close
cleanup s = record s { stopped = true; open_streams = close s.close_stream s.open_streams }

-- The effect's body: `connect()` on fresh variables.
unfoldable pub start_stream : ChatState → Streaming
unfolding connect
start_stream chat = connect (record {
  chat = chat;
  stopped = false;
  close_stream = none;
  open_streams = [];
  next_stream = 0;
  retry_delay_ms = 1000;
  retry_timers = [];
  lagged_sync_in_flight = false;
  requests = [];
})
