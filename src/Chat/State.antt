-- ===== src/Chat/State.antt =====
-- useChatState.ts: the state of the hook and the handlers that change the message list. A handler
-- that awaits is one function for each stretch between two awaits.
pub mod Cursor
pub mod Run
use ivena_meet.Base.{
  if◌then◌else◌, text_eq, trim, is_empty, Text, codes, ℤ, pos, ltb_ℤ, text_eq_instance, ℕ, Bool,
  false, Option, none, some, List, [], ◌∷◌, ◌++◌,
}
use ivena_meet.Types.{Role, null, MessageItem, RealtimeChatPayload}
use ivena_meet.Chat.Message.{mark_message_failed, to_realtime_message, confirmed}
use ivena_meet.Chat.Merge.{merge_messages}

-- The list, which the parent keeps, and the refs of the hook.
pub record ChatState : Type 0 where
  pub messages : List MessageItem
  pub last_message_id : ℤ
  pub history_sync_error_logged : Bool
  pub chat_text : Text
  pub logs : List Text

-- What a render has captured: who takes part, and where.
pub record ChatProps : Type 0 where
  pub joined : Option Role
  pub app_session_token : Text
  pub room_id : Text
  pub user_name : Text

abbrev pub push_log : Text → ChatState → ChatState
push_log line s = record s { logs = s.logs ++ line ∷ [] }

-- `for (const item of items) if (item.id > maxId) maxId = item.id`
unfoldable pub greater_id : ℤ → ℤ → ℤ
greater_id best id = if ltb_ℤ best id then id else best

unfoldable pub max_id : ℤ → List MessageItem → ℤ
max_id best [] = best
max_id best (m ∷ ms) = max_id (greater_id best m.id) ms

-- The effect on `messages`.
unfoldable pub sync_last_id : ChatState → ChatState
unfolding max_id greater_id
sync_last_id s = record s { last_message_id = max_id (pos 0) s.messages }

-- `setMessages((prev) => …)` of the stream, of a resync and of a realtime message: merge, and move
-- the cursor to the greatest identifier.
unfoldable pub merge_and_advance : List MessageItem → ChatState → ChatState
unfolding max_id greater_id merge_messages
merge_and_advance items s =
    let next = merge_messages s.messages items in
    record s { messages = next; last_message_id = max_id s.last_message_id next }

-- `onMessage` of the stream.
unfoldable pub on_stream_message : MessageItem → ChatState → ChatState
unfolding merge_and_advance confirmed
on_stream_message item s =
    merge_and_advance (confirmed item ∷ []) (record s { history_sync_error_logged = false })

-- The reply to `listMessages` when the room is entered.
unfoldable pub on_history : List MessageItem → ChatState → ChatState
on_history items s = record s { messages = items }

-- The effect on `lastRealtimeChat`; `micros` is the clock's reading for the synthetic id.
unfoldable pub on_realtime_chat : ChatProps → Option RealtimeChatPayload → ℕ → ChatState → ChatState
unfolding merge_and_advance to_realtime_message text_eq
on_realtime_chat p none micros s = s
on_realtime_chat p (some payload) micros s = elim p.joined [
  | none ↦ s
  | some r ↦
      if text_eq payload.room_id (trim p.room_id)
      then merge_and_advance (to_realtime_message micros payload ∷ []) s
      else s
]

abbrev pub chat_payload : ChatProps → Role → Text → Text → ℕ → RealtimeChatPayload
chat_payload p role client_id text seconds = record {
  room_id = trim p.room_id;
  client_id = client_id;
  user_name = trim p.user_name;
  nickname = trim p.user_name;
  avatar_url = null;
  role = role;
  text = text;
  created_at = seconds;
}

-- `sendChat` up to its first await: `none` is its early return, else the payload that is sent on.
unfoldable pub send_start :
    ChatProps → Text → ℕ → ℕ → ChatState → Option (RealtimeChatPayload × ChatState)
unfolding to_realtime_message merge_messages is_empty
send_start p client_id micros seconds s = elim p.joined [
  | none ↦ none
  | some role ↦
      let text = trim s.chat_text in
      let payload = chat_payload p role client_id text seconds in
      if is_empty text
      then none
      else some (
        payload,
        record s { messages = merge_messages s.messages (to_realtime_message micros payload ∷ []) },
      )
]

-- A failed `realtimeChatSender` is logged only.
unfoldable pub send_realtime_failed : Text → ChatState → ChatState
send_realtime_failed reason s = push_log (codes "realtime send error: " ++ reason) s

-- The reply to `createMessage`.
unfoldable pub send_created : MessageItem → ChatState → ChatState
unfolding merge_messages confirmed
send_created created s = record s {
  messages = merge_messages s.messages (confirmed created ∷ []);
  chat_text = [];
}

-- A failed `createMessage`; the error is thrown on.
unfoldable pub send_failed : Text → ChatState → ChatState
unfolding mark_message_failed
send_failed client_id s = record s { messages = mark_message_failed s.messages client_id }
