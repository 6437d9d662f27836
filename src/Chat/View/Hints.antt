-- ===== src/Chat/View/Hints.antt =====
-- useChatState.ts: the hint counter.
use ivena_meet.Base.{◌≤◌, ◌≡◌, Bool, true, Option, none, some, List, [], ◌∷◌, arith}
use ivena_meet.Types.{MessageItem}
use ivena_meet.Chat.View.{
  ScrollBox, ChatView, on_messages_shown, scroll_chat_to_bottom, on_chat_scroll, on_chat_opened,
  on_send, reset_chat_state,
}

pub data ViewEvent : Type 0 where
  shown : Bool → Option ScrollBox → List MessageItem → ViewEvent
  scrolled : Option ScrollBox → ViewEvent
  to_bottom : Option ScrollBox → ViewEvent
  opened : Bool → Bool → Option ScrollBox → ViewEvent
  sent reset : ViewEvent

pub view_step : ChatView → ViewEvent → ChatView
view_step v (shown open_chat box messages) = (on_messages_shown open_chat box messages v).0
view_step v (scrolled box) = on_chat_scroll box v
view_step v (to_bottom box) = scroll_chat_to_bottom box v
view_step v (opened open_chat joined box) = on_chat_opened open_chat joined box v
view_step v sent = on_send v
view_step v reset = reset_chat_state v

pub view_run : ChatView → List ViewEvent → ChatView
view_run v [] = v
view_run v (e ∷ es) = view_run (view_step v e) es

-- At most 99 messages are counted, and none while the list follows its end.
pub record HintsFit (v : ChatView) : Type 0 where
  pub most : v.pending_chat_hints ≤ 99
  pub following : v.auto_scroll ≡ true → v.pending_chat_hints ≡ 0

on_messages_shown-HintsFit :
    (open_chat : Bool) (box : Option ScrollBox) (messages : List MessageItem) (v : ChatView)
    → HintsFit v
    → HintsFit (on_messages_shown open_chat box messages v).0
unfolding on_messages_shown
on_messages_shown-HintsFit open_chat box messages v h = ground arith

view_step-HintsFit : (v : ChatView) (e : ViewEvent) → HintsFit v → HintsFit (view_step v e)
unfolding view_step on_chat_scroll scroll_chat_to_bottom on_chat_opened on_send reset_chat_state
view_step-HintsFit v (shown open_chat box messages) h =
    on_messages_shown-HintsFit open_chat box messages v h
view_step-HintsFit v (scrolled none) h = h
view_step-HintsFit v (scrolled (some box)) h = ground arith
view_step-HintsFit v (to_bottom none) h = h
view_step-HintsFit v (to_bottom (some box)) h = ground arith
view_step-HintsFit v (opened open_chat joined box) h = ground arith
view_step-HintsFit v sent h = ground arith
view_step-HintsFit v reset h = ground arith

-- After any sequence of scrolls, openings, sends and new messages the counter is at most 99, and 0
-- while the list follows its end.
pub view_run-HintsFit : (v : ChatView) (es : List ViewEvent) → HintsFit v → HintsFit (view_run v es)
unfolding view_run
view_run-HintsFit v [] h = h
view_run-HintsFit v (e ∷ es) h = view_run-HintsFit (view_step v e) es (view_step-HintsFit v e h)
