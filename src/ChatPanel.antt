-- ===== src/ChatPanel.antt =====
-- apps/frontend/src/components/ChatPanel.tsx: the chat panel beside the stage. Between two events the
-- panel is rendered, so that a handler reads the state as it is; `sends` is how many calls of
-- `onSend` have not been answered.
pub mod Run
use ivena_meet.Base.{
  ◌==◌, if◌then◌else◌, text_eq, trim, is_empty, Text, codes, ℕ, suc, ◌+◌, ◌-◌, min, Bool, true,
  false, not, ◌&&◌, ◌||◌, Option, none, some, List, [], ◌++◌,
}
use ivena_meet.Types.{MessageItem}
use ivena_meet.Chat.View.{message_tail_key, ScrollBox, is_near_bottom}
use ivena_meet.Chat.Message.{or_false, client_of}

pub record Panel : Type 0 where
  pub chat_text : Text
  pub sending : Bool
  pub action_error : Text
  pub pending_hints : ℕ
  pub retrying_message_key : Text
  pub auto_scroll : Bool
  pub tail : Text
  pub sends : ℕ

abbrev pub mount_panel : Panel
mount_panel = record {
  chat_text = [];
  sending = false;
  action_error = [];
  pending_hints = 0;
  retrying_message_key = [];
  auto_scroll = true;
  tail = codes "empty";
  sends = 0;
}

unfoldable pub scroll_to_bottom : Option ScrollBox → Panel → Panel
scroll_to_bottom none s = s
scroll_to_bottom (some box) s = record s { auto_scroll = true; pending_hints = 0 }

unfoldable pub on_scroll : Option ScrollBox → Panel → Panel
unfolding is_near_bottom
on_scroll none s = s
on_scroll (some box) s =
    let near = is_near_bottom box in
    let seen = record s { auto_scroll = near } in
    if near && not (s.pending_hints == 0) then record seen { pending_hints = 0 } else seen

-- The effect on the messages and the session.
unfoldable pub show_messages : Bool → Option ScrollBox → List MessageItem → Panel → Panel
unfolding message_tail_key is_near_bottom text_eq scroll_to_bottom
show_messages false box messages s = record s { tail = codes "empty"; pending_hints = 0 }
show_messages true none messages s = s
show_messages true (some box) messages s =
    let next_tail = message_tail_key messages in
    let seen = record s { tail = next_tail } in
    if text_eq next_tail s.tail
    then s
    else if s.auto_scroll || is_near_bottom box
    then scroll_to_bottom (some box) seen
    else record seen { pending_hints = min (s.pending_hints + 1) 99 }

-- The effect on the session and the room.
unfoldable pub show_room : Bool → Option ScrollBox → Panel → Panel
unfolding scroll_to_bottom
show_room joined box s = if joined then scroll_to_bottom box s else s

-- `send` until it awaits: the text for `onSend`, where there is one.
unfoldable pub send : Bool → Panel → Option Text × Panel
unfolding is_empty
send joined s =
    let text = trim s.chat_text in
    if not joined || (is_empty text || s.sending) then (none, s) else (
      some text,
      record s {
        sending = true;
        action_error = [];
        chat_text = [];
        auto_scroll = true;
        pending_hints = 0;
        sends = suc s.sends;
      },
    )

unfoldable pub send_done : Panel → Panel
send_done s = record s { sending = false; sends = s.sends - 1 }

unfoldable pub send_failed : Text → Text → Panel → Panel
unfolding send_done
send_failed text e s = send_done (record s { action_error = e; chat_text = text })

-- The decimal text of an identifier is left to the caller.
abbrev pub retry_key : Text → MessageItem → Text
retry_key id_text m =
    if is_empty (client_of m) then codes "id:" ++ id_text else codes "client:" ++ client_of m

-- `retryMessage` until it awaits, where a way to retry is given: whether `onRetryMessage` is called.
unfoldable pub retry_message : Text → MessageItem → Panel → Bool × Panel
unfolding is_empty text_eq
retry_message id_text m s =
    let key = retry_key id_text m in
    if not (or_false m.failed)
    then (false, s)
    else if text_eq s.retrying_message_key key
    then (false, s)
    else (true, record s { retrying_message_key = key; action_error = [] })

unfoldable pub retry_done : Panel → Panel
retry_done s = record s { retrying_message_key = [] }

unfoldable pub retry_failed : Text → Panel → Panel
retry_failed e s = record s { action_error = e; retrying_message_key = [] }
