-- ===== src/Tests/Chat.antt =====
-- Runs of the chat's message list.
use ivena_meet.Base.{
  Bool-cases, All, text_eq, is_empty, codes, text_eq_iff, pos, ◌<ℤ◌, ◌≤◌, ◌≡◌, refl, subst, ◌↔◌,
  ◌⊎◌, inl, inr, false, some, List, [], ◌∷◌, arith,
}
use ivena_meet.Types.{host, MessageItem}
use ivena_meet.Tests.{stored_message, sent_message, echoed_message, two_messages}
use ivena_meet.Chat.Message.{client_of, compare_messages}
use ivena_meet.Chat.Order.{Before, compare_messages_lem, IsSorted}
use ivena_meet.Chat.Merge.{
  get, put_client, index_ids, index_clients, target_of, merge_all, start, merge_messages,
}
use ivena_meet.Chat.Merge.Tracking.{count_client, UniqueClients}
use ivena_meet.Chat.Merge.Position.{find_client}
use ivena_meet.Chat.Merge.Laws.{merge_messages-UniqueClients}
use ivena_meet.Chat.Merge.Retry.{Carries, merge_messages-find_client, merge_messages_idem}
use ivena_meet.Chat.State.{ChatState, ChatProps, sync_last_id, on_stream_message, send_created}
use ivena_meet.Chat.State.Cursor.{AtMost, ◌≤ℤ◌, IsIdOf, sync_last_id-on_stream_message}
use ivena_meet.Chat.State.Run.{
  ChatEvent, history, send, created, chat_run, IsFromServer, chat_run-UniqueClients,
  send_created-confirms,
}

abbrev test_chat : ChatState
test_chat = record {
  messages = two_messages;
  last_message_id = pos 7;
  history_sync_error_logged = false;
  chat_text = [];
  logs = [];
}

abbrev test_props : ChatProps
test_props = record {
  joined = some host;
  app_session_token = codes "a";
  room_id = codes "r1";
  user_name = codes "ada";
}

abbrev test_events : List ChatEvent
test_events =
    history (stored_message ∷ []) ∷ send test_props (codes "c3") 103 5 ∷ created echoed_message ∷ []

one-UniqueClients : UniqueClients (stored_message ∷ [])
one-UniqueClients c n = ground arith

two-UniqueClients : UniqueClients two_messages
unfolding text_eq
two-UniqueClients c n = elim (Bool-cases (text_eq (codes "c1") c)) [
  | inl e ↦
      subst (λ d. count_client d two_messages ≤ 1) ((text_eq_iff (codes "c1") c).0 e) (omega arith)
  | inr e ↦ rw e (ground arith)
]

events-IsFromServer : All IsFromServer test_events
events-IsFromServer = (one-UniqueClients, (tt, (tt, tt)))

merge_messages-UniqueClients_example :
    UniqueClients (merge_messages two_messages (echoed_message ∷ []))
merge_messages-UniqueClients_example =
    merge_messages-UniqueClients two_messages (echoed_message ∷ []) two-UniqueClients

two-IsSorted : IsSorted two_messages
two-IsSorted = ((inl (omega arith), tt), (tt, tt))

chat_run-UniqueClients_example : UniqueClients (chat_run test_chat test_events).messages
chat_run-UniqueClients_example =
    chat_run-UniqueClients test_chat test_events events-IsFromServer two-UniqueClients

send_created-confirms_example :
    (w : MessageItem) × (find_client
        (client_of echoed_message)
        (send_created echoed_message (chat_run test_chat test_events)).messages
      ≡ some w)
    × (w.id ≡ pos 8)
    × (w.text ≡ codes "again")
    × (w.pending ≡ some false)
    × (w.failed ≡ some false)
send_created-confirms_example =
    send_created-confirms test_chat test_events echoed_message events-IsFromServer two-UniqueClients
      (λ e. ground (arith, e))

merge_messages_idem_example :
    merge_messages (merge_messages two_messages (echoed_message ∷ [])) (echoed_message ∷ [])
    ≡ merge_messages two_messages (echoed_message ∷ [])
merge_messages_idem_example =
    merge_messages_idem two_messages echoed_message two-UniqueClients (λ e. ground (arith, e))

merge_messages-find_client_example :
    (w : MessageItem) × (find_client
        (client_of echoed_message)
        (merge_messages two_messages (echoed_message ∷ []))
      ≡ some w)
    × Carries echoed_message w
merge_messages-find_client_example =
    merge_messages-find_client two_messages echoed_message two-UniqueClients
      (λ e. ground (arith, e))

compare_messages_lem_example :
    let c = compare_messages sent_message stored_message in
    ((c <ℤ pos 0) ↔ Before sent_message stored_message)
    × ((pos 0 <ℤ c) ↔ Before stored_message sent_message)
    × ((c ≡ pos 0) ↔ (
        (sent_message.created_at ≡ stored_message.created_at)
        × (sent_message.id ≡ stored_message.id)))
compare_messages_lem_example = compare_messages_lem sent_message stored_message

echo_target : target_of (merge_all (start two_messages) []) echoed_message ≡ some 1
unfolding target_of merge_all get index_ids index_clients put_client text_eq is_empty
echo_target = refl

sync_last_id-on_stream_message_example :
    let t = sync_last_id (on_stream_message echoed_message test_chat) in
    (pos 8 ≤ℤ t.last_message_id)
    × All (AtMost t.last_message_id) t.messages
    × ((t.last_message_id ≡ pos 0) ⊎ IsIdOf t.messages t.last_message_id)
sync_last_id-on_stream_message_example = sync_last_id-on_stream_message echoed_message test_chat
