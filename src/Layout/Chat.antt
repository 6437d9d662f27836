-- ===== src/Layout/Chat.antt =====
-- Layout.tsx: its own list of messages, and the handlers that send one and send one again. A handler
-- that awaits is one function for each stretch between two awaits.
pub mod Upsert
pub mod Agree
pub mod Retry
use ivena_meet.Base.{
  if◌then◌else◌, get_elem?, set, trim, is_empty, Text, codes, pos, ◌-ℤ◌, eqb_ℤ, ℕ, suc, Bool, true,
  false, not, ◌||◌, Option, none, some, List, [], ◌∷◌, ◌++◌, map,
}
use ivena_meet.Types.{Role, Opt, absent, null, present, spread, MessageItem, RealtimeChatPayload}
use ivena_meet.Chat.Message.{or_false, client_of, sort_messages, has_client, confirmed}
use ivena_meet.Chat.Merge.{or_else}

-- The comparator is the one of useChatState.ts.
unfoldable pub sort_items : List MessageItem → List MessageItem
sort_items items = sort_messages items

-- `findIndex`, counted from a position; `none` is -1.
unfoldable pub find_index : ℕ → (MessageItem → Bool) → List MessageItem → Option ℕ
find_index i p [] = none
find_index i p (m ∷ ms) = let later = find_index (suc i) p ms in if p m then some i else later

-- A mark of `{ ...prev, ...next }`.
abbrev pub spread_mark : Option Bool → Option Bool → Option Bool
spread_mark prev none = prev
spread_mark prev (some b) = some b

-- `{ ...out[idx], ...next }`
unfoldable pub assigned : MessageItem → MessageItem → MessageItem
assigned prev next = record next {
  avatar_url = spread prev.avatar_url next.avatar_url;
  client_id = spread prev.client_id next.client_id;
  pending = spread_mark prev.pending next.pending;
  failed = spread_mark prev.failed next.failed;
}

unfoldable pub upsert_index : List MessageItem → MessageItem → Option ℕ
unfolding find_index has_client is_empty
upsert_index base next =
    or_else
      (if is_empty (client_of next) then none else find_index 0 (has_client (client_of next)) base)
      (find_index 0 (λ m. eqb_ℤ m.id next.id) base)

-- An index that was found lies inside the list.
abbrev pub upsert_at : List MessageItem → MessageItem → Option ℕ → List MessageItem
upsert_at base next none = base ++ next ∷ []
upsert_at base next (some i) = elim (get_elem? base i) [
  | none ↦ base
  | some prev ↦ set base i (assigned prev next)
]

unfoldable pub upsert_message : List MessageItem → MessageItem → List MessageItem
unfolding upsert_index assigned sort_items
upsert_message base next = sort_items (upsert_at base next (upsert_index base next))

-- What a render has captured: the role of the session, the room and the name.
pub record LayoutProps : Type 0 where
  pub session : Option Role
  pub room_id : Text
  pub user_name : Text

pub record LayoutChat : Type 0 where
  pub messages : List MessageItem
  pub logs : List Text

abbrev pub log_line : Text → LayoutChat → LayoutChat
log_line line s = record s { logs = s.logs ++ line ∷ [] }

abbrev pub pending_message : LayoutProps → Role → Text → Text → ℕ → ℕ → MessageItem
pending_message p role client_id body micros seconds = record {
  id = pos 0 -ℤ pos micros;
  room_id = trim p.room_id;
  user_name = trim p.user_name;
  nickname = trim p.user_name;
  avatar_url = null;
  role = role;
  client_id = present client_id;
  text = body;
  created_at = seconds;
  pending = some true;
  failed = some false;
}

-- What `realtimeChatSender` is given.
abbrev pub realtime_payload : LayoutProps → Role → Text → Text → Opt Text → ℕ → RealtimeChatPayload
realtime_payload p role client_id body avatar seconds = record {
  room_id = trim p.room_id;
  client_id = client_id;
  user_name = trim p.user_name;
  nickname = trim p.user_name;
  avatar_url = avatar;
  role = role;
  text = body;
  created_at = seconds;
}

-- `handleSendChat` until its first await: `none` where it returns early, else what is sent on.
-- `micros` and `seconds` are readings of the clock.
unfoldable pub handle_send_chat :
    LayoutProps → Text → Text → ℕ → ℕ → LayoutChat → Option (RealtimeChatPayload × LayoutChat)
unfolding upsert_message is_empty
handle_send_chat p text client_id micros seconds s = elim p.session [
  | none ↦ none
  | some role ↦
      let body = trim text in
      if is_empty body
      then none
      else some (
        realtime_payload p role client_id body null seconds,
        record s {
          messages =
              upsert_message s.messages (pending_message p role client_id body micros seconds);
        },
      )
]

unfoldable pub realtime_failed : Text → LayoutChat → LayoutChat
realtime_failed e s = log_line (codes "realtime send error: " ++ e) s

-- The reply to `createMessage`, of a message sent first or again.
unfoldable pub message_created : MessageItem → LayoutChat → LayoutChat
unfolding upsert_message confirmed
message_created created s = record s { messages = upsert_message s.messages (confirmed created) }

-- A failed `createMessage`; the error is thrown on.
unfoldable pub message_failed : Text → LayoutChat → LayoutChat
unfolding has_client
message_failed client_id s = record s {
  messages =
      map
        (λ m.
          if has_client client_id m
          then record m { pending = some false; failed = some true }
          else m)
        s.messages;
}

-- `targetClientId ? m.client_id === targetClientId : m.id === targetId`
unfoldable pub is_target : MessageItem → MessageItem → Bool
unfolding has_client is_empty
is_target target m =
    if is_empty (client_of target) then eqb_ℤ m.id target.id else has_client (client_of target) m

abbrev pub sent_again : Text → ℕ → MessageItem → MessageItem
sent_again client_id seconds m = record m {
  client_id = present client_id;
  created_at = seconds;
  pending = some true;
  failed = some false;
}

-- `avatar_url ?? null`
abbrev pub null_if_absent : Opt Text → Opt Text
null_if_absent absent = null
null_if_absent null = null
null_if_absent (present a) = present a

-- `retryFailedChatMessage` until its first await.
unfoldable pub retry_failed_chat_message :
    LayoutProps → MessageItem → Text → ℕ → LayoutChat → Option (RealtimeChatPayload × LayoutChat)
unfolding is_target is_empty
retry_failed_chat_message p target client_id seconds s = elim p.session [
  | none ↦ none
  | some role ↦
      let body = trim target.text in
      if is_empty body || not (or_false target.failed)
      then none
      else if is_empty (trim p.room_id) || is_empty (trim p.user_name)
      then none
      else some (
        realtime_payload p role client_id body (null_if_absent target.avatar_url) seconds,
        record s {
          messages =
              map (λ m. if is_target target m then sent_again client_id seconds m else m)
                s.messages;
        },
      )
]

unfoldable pub retry_realtime_failed : Text → LayoutChat → LayoutChat
retry_realtime_failed e s = log_line (codes "realtime retry send error: " ++ e) s
