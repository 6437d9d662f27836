-- ===== src/Tests/Stream.antt =====
-- Runs of the chat's stream and of the reader of its frames.
use ivena_meet.Base.{Text, codes, pos, suc, ◌≡◌, refl, false, Option, some, List, [], ◌∷◌}
use ivena_meet.Types.{MessageItem}
use ivena_meet.Tests.{stored_message}
use ivena_meet.Chat.State.{ChatState}
use ivena_meet.Chat.Stream.{Streaming, connect, on_error, on_retry_timer, cleanup, start_stream}
use ivena_meet.Chat.Stream.Single.{two_errors_leak}
use ivena_meet.Api.Sse.{read_chunks}
use ivena_meet.Api.Sse.Chunks.{joined, read_chunks-joined}

abbrev empty_chat : ChatState
empty_chat = record {
  messages = [];
  last_message_id = pos 0;
  history_sync_error_logged = false;
  chat_text = [];
  logs = [];
}

abbrev test_stream : Streaming
test_stream = start_stream empty_chat

stream_held : test_stream.close_stream ≡ some 0
unfolding start_stream connect
stream_held = refl

open_one : test_stream.open_streams ≡ 0 ∷ []
unfolding start_stream connect
open_one = refl

no_timers : test_stream.retry_timers ≡ []
unfolding start_stream connect
no_timers = refl

not_stopped : test_stream.stopped ≡ false
unfolding start_stream connect
not_stopped = refl

two_errors_leak_example :
    let t =
      on_retry_timer
        (on_retry_timer (on_error (codes "bad") (on_error (codes "bad") test_stream))) in
    (t.open_streams ≡ suc test_stream.next_stream ∷ test_stream.next_stream ∷ [])
    × ((cleanup t).open_streams ≡ test_stream.next_stream ∷ [])
two_errors_leak_example =
    two_errors_leak test_stream 0 (codes "bad") (codes "bad") not_stopped stream_held open_one
      no_timers

-- Whatever the body, it is this message.
abbrev parse_any : Text → Option MessageItem
parse_any body = some stored_message

abbrev cut_frame : List Text
cut_frame = codes "event: message\nda" ∷ codes "ta: {}\n" ∷ codes "\nevent:" ∷ []

read_chunks-joined_example :
    read_chunks parse_any [] cut_frame ≡ read_chunks parse_any [] (joined cut_frame ∷ [])
read_chunks-joined_example = read_chunks-joined parse_any cut_frame
