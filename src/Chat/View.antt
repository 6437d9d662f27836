-- ===== src/Chat/View.antt =====
-- useChatState.ts and lib/chat.ts: scrolling, and the count of messages below the visible part.
pub mod Hints
use ivena_meet.Base.{
  ◌==◌, if◌then◌else◌, text_eq, to_decimal, Text, codes, ℤ, pos, negsuc, ◌-ℤ◌, ltb_ℤ,
  text_eq_instance, ℕ, suc, ◌+◌, min, Bool, true, false, not, ◌&&◌, ◌||◌, Option, none, some, List,
  [], ◌∷◌, ◌++◌,
}
use ivena_meet.Types.{nullish, MessageItem}
use ivena_meet.Chat.Message.{or_false}

-- `${m.id}`
decimal_ℤ : ℤ → Text
decimal_ℤ (pos n) = to_decimal n
decimal_ℤ (negsuc n) = b'-' ∷ to_decimal (suc n)

abbrev flag : Option Bool → Text
flag b = if or_false b then codes "1" else codes "0"

tail_of : MessageItem → Text
unfolding decimal_ℤ
tail_of m =
    decimal_ℤ m.id
    ++ (b':'
        ∷ (nullish m.client_id []
            ++ (b':'
                ∷ (to_decimal m.created_at
                    ++ (b':' ∷ (flag m.pending ++ (b':' ∷ flag m.failed)))))))

unfoldable pub message_tail_key : List MessageItem → Text
unfolding tail_of to_decimal
message_tail_key [] = codes "empty"
message_tail_key (m ∷ []) = tail_of m
message_tail_key (m ∷ n ∷ ms) = message_tail_key (n ∷ ms)

-- The sizes of the scrolled element.
pub record ScrollBox : Type 0 where
  pub scroll_height : ℕ
  pub scroll_top : ℕ
  pub client_height : ℕ

-- `box.scrollHeight - box.scrollTop - box.clientHeight <= 56`
unfoldable pub is_near_bottom : ScrollBox → Bool
is_near_bottom box =
    not (ltb_ℤ (pos 56) (pos box.scroll_height -ℤ pos box.scroll_top -ℤ pos box.client_height))

pub record ChatView : Type 0 where
  pub pending_chat_hints : ℕ
  pub auto_scroll : Bool
  pub last_tail_key : Text

-- The effect on the messages; the flag says whether the box is scrolled to its end.
unfoldable pub on_messages_shown :
    Bool → Option ScrollBox → List MessageItem → ChatView → ChatView × Bool
unfolding message_tail_key is_near_bottom text_eq
on_messages_shown false box messages v = (v, false)
on_messages_shown true none messages v = (v, false)
on_messages_shown true (some box) messages v =
    let next_tail = message_tail_key messages in
    if text_eq next_tail v.last_tail_key
    then (v, false)
    else if v.auto_scroll || is_near_bottom box
    then (record { pending_chat_hints = 0; auto_scroll = true; last_tail_key = next_tail }, true)
    else (
      record v {
        pending_chat_hints = min (v.pending_chat_hints + 1) 99;
        last_tail_key = next_tail;
      },
      false,
    )

unfoldable pub scroll_chat_to_bottom : Option ScrollBox → ChatView → ChatView
scroll_chat_to_bottom none v = v
scroll_chat_to_bottom (some box) v = record v { pending_chat_hints = 0; auto_scroll = true }

unfoldable pub on_chat_scroll : Option ScrollBox → ChatView → ChatView
unfolding is_near_bottom
on_chat_scroll none v = v
on_chat_scroll (some box) v =
    let near = is_near_bottom box in
    if near && not (v.pending_chat_hints == 0)
    then record v { pending_chat_hints = 0; auto_scroll = near }
    else record v { auto_scroll = near }

-- The effect on `openChat`, `joined` and `roomId`.
unfoldable pub on_chat_opened : Bool → Bool → Option ScrollBox → ChatView → ChatView
unfolding scroll_chat_to_bottom
on_chat_opened open_chat joined box v =
    if open_chat && joined then scroll_chat_to_bottom box v else v

-- What `sendChat` does to the view once it has a text to send.
unfoldable pub on_send : ChatView → ChatView
on_send v = record v { pending_chat_hints = 0; auto_scroll = true }

unfoldable pub reset_chat_state : ChatView → ChatView
reset_chat_state v = record {
  pending_chat_hints = 0;
  auto_scroll = true;
  last_tail_key = codes "empty";
}
