-- ===== src/Chat/State/Run.antt =====
-- useChatState.ts: the handlers in any order, as the browser may run them.
use ivena_meet.Base.{
  Option-cases, All, trim, Text, text_eq_instance, ℕ, ◌≡◌, refl, ◌≢◌, inl, inr, false, Option, none,
  some, List, [], ◌∷◌, map, arith,
}
use ivena_meet.Types.{MessageItem, RealtimeChatPayload}
use ivena_meet.Chat.Message.{client_of, mark_message_failed, to_realtime_message, confirmed}
use ivena_meet.Chat.Merge.Tracking.{count_client, UniqueClients}
use ivena_meet.Chat.Merge.Laws.{merge_messages-UniqueClients}
use ivena_meet.Chat.State.{
  ChatState, ChatProps, sync_last_id, merge_and_advance, on_stream_message, on_history,
  on_realtime_chat, chat_payload, send_start, send_realtime_failed, send_created, send_failed,
}
use ivena_meet.Chat.Merge.Retry.{merge_messages-find_client}
use ivena_meet.Chat.Merge.Position.{find_client}

-- What can happen to the list, each with what comes from outside.
pub data ChatEvent : Type 0 where
  history : List MessageItem → ChatEvent
  stream_message : MessageItem → ChatEvent
  resync : List MessageItem → ChatEvent
  realtime_chat : ChatProps → Option RealtimeChatPayload → ℕ → ChatEvent
  send : ChatProps → Text → ℕ → ℕ → ChatEvent
  realtime_failed : Text → ChatEvent
  created : MessageItem → ChatEvent
  create_failed : Text → ChatEvent
  messages_changed : ChatEvent
  typed : Text → ChatEvent

-- `sendChat` leaves the state alone where it returns early.
pub after_send : ChatState → Option (RealtimeChatPayload × ChatState) → ChatState
after_send s none = s
after_send s (some (payload, t)) = t

unfoldable pub chat_step : ChatState → ChatEvent → ChatState
unfolding after_send
chat_step s (history items) = on_history items s
chat_step s (stream_message item) = on_stream_message item s
chat_step s (resync items) = merge_and_advance (map confirmed items) s
chat_step s (realtime_chat p payload micros) = on_realtime_chat p payload micros s
chat_step s (send p client_id micros seconds) =
    after_send s (send_start p client_id micros seconds s)
chat_step s (realtime_failed reason) = send_realtime_failed reason s
chat_step s (created item) = send_created item s
chat_step s (create_failed client_id) = send_failed client_id s
chat_step s messages_changed = sync_last_id s
chat_step s (typed text) = record s { chat_text = text }

unfoldable pub chat_run : ChatState → List ChatEvent → ChatState
unfolding chat_step
chat_run s [] = s
chat_run s (e ∷ es) = chat_run (chat_step s e) es

-- The server's history names no client id twice.
abbrev pub IsFromServer : ChatEvent → Type 0
IsFromServer (history items) = UniqueClients items
IsFromServer _ = Unit

count_client-mark :
    (c d : Text) (ms : List MessageItem)
    → count_client c (mark_message_failed ms d) ≡ count_client c ms
unfolding mark_message_failed
count_client-mark c d [] = refl
count_client-mark c d (m ∷ ms) = ground (arith, count_client-mark c d ms)

send_failed-UniqueClients :
    (c : Text) (s : ChatState) → UniqueClients s.messages → UniqueClients (send_failed c s).messages
unfolding send_failed
send_failed-UniqueClients d s u c n = omega (arith, u c n, count_client-mark c d s.messages)

on_realtime_chat-UniqueClients :
    (p : ChatProps) (payload : Option RealtimeChatPayload) (micros : ℕ) (s : ChatState)
    → UniqueClients s.messages
    → UniqueClients (on_realtime_chat p payload micros s).messages
unfolding on_realtime_chat merge_and_advance
on_realtime_chat-UniqueClients p none micros s u c n = u c n
on_realtime_chat-UniqueClients p (some payload) micros s u c n =
    let shown = to_realtime_message micros payload ∷ [] in
    ground (arith, u c n, merge_messages-UniqueClients s.messages shown u c n)

send_start-UniqueClients :
    (p : ChatProps) (client_id : Text) (micros seconds : ℕ) (s : ChatState)
    → UniqueClients s.messages
    → UniqueClients (after_send s (send_start p client_id micros seconds s)).messages
unfolding send_start after_send
send_start-UniqueClients p client_id micros seconds s u c n = elim (Option-cases p.joined) [
  | inl e ↦ ground (arith, e, u c n)
  | inr (role, e) ↦
      let payload = chat_payload p role client_id (trim s.chat_text) seconds in
      let shown = to_realtime_message micros payload ∷ [] in
      ground (arith, e, u c n, merge_messages-UniqueClients s.messages shown u c n)
]

chat_step-UniqueClients :
    (s : ChatState) (e : ChatEvent)
    → IsFromServer e
    → UniqueClients s.messages
    → UniqueClients (chat_step s e).messages
unfolding chat_step on_history on_stream_message merge_and_advance send_created sync_last_id
    send_realtime_failed
chat_step-UniqueClients s (history items) h u = h
chat_step-UniqueClients s (stream_message item) h u =
    merge_messages-UniqueClients s.messages (confirmed item ∷ []) u
chat_step-UniqueClients s (resync items) h u =
    merge_messages-UniqueClients s.messages (map confirmed items) u
chat_step-UniqueClients s (realtime_chat p payload micros) h u =
    on_realtime_chat-UniqueClients p payload micros s u
chat_step-UniqueClients s (send p client_id micros seconds) h u =
    send_start-UniqueClients p client_id micros seconds s u
chat_step-UniqueClients s (realtime_failed reason) h u = u
chat_step-UniqueClients s (created item) h u =
    merge_messages-UniqueClients s.messages (confirmed item ∷ []) u
chat_step-UniqueClients s (create_failed client_id) h u = send_failed-UniqueClients client_id s u
chat_step-UniqueClients s messages_changed h u = u
chat_step-UniqueClients s (typed text) h u = u

-- However sends, replies, stream messages and resyncs interleave, no client id is ever shown
-- twice, provided that none is in the server's own history.
pub chat_run-UniqueClients :
    (s : ChatState) (es : List ChatEvent)
    → All IsFromServer es
    → UniqueClients s.messages
    → UniqueClients (chat_run s es).messages
unfolding chat_run
chat_run-UniqueClients s [] h u = u
chat_run-UniqueClients s (e ∷ es) h u =
    chat_run-UniqueClients (chat_step s e) es h.1 (chat_step-UniqueClients s e h.0 u)

-- When the server has stored a message with a client id, the entry of that client id shows the
-- server's identifier and text and is neither pending nor failed, whatever happened since it was
-- sent, if no client id stood twice at first and none does in the server's own history.
pub send_created-confirms :
    (s : ChatState) (es : List ChatEvent) (item : MessageItem)
    → All IsFromServer es
    → UniqueClients s.messages
    → client_of item ≢ []
    → (w : MessageItem) × (find_client (client_of item) (send_created item (chat_run s es)).messages
        ≡ some w)
      × (w.id ≡ item.id)
      × (w.text ≡ item.text)
      × (w.pending ≡ some false)
      × (w.failed ≡ some false)
unfolding send_created confirmed
send_created-confirms s es item h u n =
    let (w, found, carried) =
      merge_messages-find_client (chat_run s es).messages (confirmed item)
        (chat_run-UniqueClients s es h u) n in
    (w, found, carried.id, carried.text, carried.pending, carried.failed)
