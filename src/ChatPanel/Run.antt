-- ===== src/ChatPanel/Run.antt =====
-- ChatPanel.tsx: the panel over any run of its events.
use ivena_meet.Base.{
  ◌==◌, if◌then◌else◌, Text, ◌≤◌, ◌≡◌, refl, Bool, true, false, Option, none, some, List, [], ◌∷◌,
  arith,
}
use ivena_meet.Types.{MessageItem}
use ivena_meet.Chat.View.{ScrollBox}
use ivena_meet.ChatPanel.{
  Panel, scroll_to_bottom, on_scroll, show_messages, show_room, send, send_done, send_failed,
  retry_message, retry_done, retry_failed,
}

-- An answer comes only to a call that has none yet.
pub data PanelEvent : Type 0 where
  scrolled : Option ScrollBox → PanelEvent
  showed : Bool → Option ScrollBox → List MessageItem → PanelEvent
  entered : Bool → Option ScrollBox → PanelEvent
  typed : Text → PanelEvent
  pressed_send : Bool → PanelEvent
  sent : PanelEvent
  send_refused : Text → Text → PanelEvent
  pressed_retry : Text → MessageItem → PanelEvent
  retried : PanelEvent
  retry_refused : Text → PanelEvent

unfoldable pub panel_step : Panel → PanelEvent → Panel
unfolding on_scroll show_messages show_room send send_done send_failed retry_message retry_done
    retry_failed
panel_step s (scrolled box) = on_scroll box s
panel_step s (showed joined box messages) = show_messages joined box messages s
panel_step s (entered joined box) = show_room joined box s
panel_step s (typed text) = record s { chat_text = text }
panel_step s (pressed_send joined) = (send joined s).1
panel_step s sent = if s.sends == 0 then s else send_done s
panel_step s (send_refused text e) = if s.sends == 0 then s else send_failed text e s
panel_step s (pressed_retry id_text m) = (retry_message id_text m s).1
panel_step s retried = retry_done s
panel_step s (retry_refused e) = retry_failed e s

unfoldable pub panel_run : Panel → List PanelEvent → Panel
unfolding panel_step
panel_run s [] = s
panel_run s (e ∷ es) = panel_run (panel_step s e) es

pub record PanelFits (s : Panel) : Type 0 where
  pub few : s.pending_hints ≤ 99
  pub at_end : s.auto_scroll ≡ true → s.pending_hints ≡ 0
  pub one_send : s.sends ≡ (if s.sending then 1 else 0)

on_scroll-PanelFits :
    (box : Option ScrollBox) (s : Panel) → PanelFits s → PanelFits (on_scroll box s)
unfolding on_scroll
on_scroll-PanelFits none s f = f
on_scroll-PanelFits (some box) s f = record {
  few = ground (arith, f.few);
  at_end = λ h. ground (arith, h, f.few);
  one_send = ground (arith, f.one_send);
}

show_messages-PanelFits :
    (joined : Bool) (box : Option ScrollBox) (messages : List MessageItem) (s : Panel)
    → PanelFits s
    → PanelFits (show_messages joined box messages s)
unfolding show_messages scroll_to_bottom
show_messages-PanelFits false box messages s f = record {
  few = omega arith;
  at_end = λ h. refl;
  one_send = f.one_send;
}
show_messages-PanelFits true none messages s f = f
show_messages-PanelFits true (some box) messages s f = record {
  few = ground (arith, f.few);
  at_end = λ h. ground (arith, h, f.at_end);
  one_send = ground (arith, f.one_send);
}

send-PanelFits : (joined : Bool) (s : Panel) → PanelFits s → PanelFits (send joined s).1
unfolding send
send-PanelFits joined s f = record {
  few = ground (arith, f.few);
  at_end = λ h. ground (arith, h, f.at_end);
  one_send = ground (arith, f.one_send);
}

panel_step-PanelFits : (s : Panel) (e : PanelEvent) → PanelFits s → PanelFits (panel_step s e)
unfolding panel_step show_room scroll_to_bottom retry_done retry_failed send_done send_failed
    retry_message
panel_step-PanelFits s (scrolled box) f = on_scroll-PanelFits box s f
panel_step-PanelFits s (showed joined box messages) f =
    show_messages-PanelFits joined box messages s f
panel_step-PanelFits s (entered false box) f = f
panel_step-PanelFits s (entered true none) f = f
panel_step-PanelFits s (entered true (some box)) f = record {
  few = omega arith;
  at_end = λ h. refl;
  one_send = f.one_send;
}
panel_step-PanelFits s (typed text) f = record {
  few = f.few;
  at_end = f.at_end;
  one_send = f.one_send;
}
panel_step-PanelFits s (pressed_send joined) f = send-PanelFits joined s f
panel_step-PanelFits s sent f = record {
  few = ground (arith, f.few);
  at_end = λ h. ground (arith, h, f.at_end);
  one_send = ground (arith, f.one_send);
}
panel_step-PanelFits s (send_refused text e) f = record {
  few = ground (arith, f.few);
  at_end = λ h. ground (arith, h, f.at_end);
  one_send = ground (arith, f.one_send);
}
panel_step-PanelFits s (pressed_retry id_text m) f = record {
  few = ground (arith, f.few);
  at_end = λ h. ground (arith, h, f.at_end);
  one_send = ground (arith, f.one_send);
}
panel_step-PanelFits s retried f = record { few = f.few; at_end = f.at_end; one_send = f.one_send }
panel_step-PanelFits s (retry_refused e) f = record {
  few = f.few;
  at_end = f.at_end;
  one_send = f.one_send;
}

-- Over any run from a state that fits, as the first one does, at most 99 hints are counted, none while
-- the panel scrolls along, and at most one message is being sent, which the flag says.
pub panel_run-PanelFits :
    (s : Panel) (es : List PanelEvent) → PanelFits s → PanelFits (panel_run s es)
unfolding panel_run
panel_run-PanelFits s [] f = f
panel_run-PanelFits s (e ∷ es) f =
    panel_run-PanelFits (panel_step s e) es (panel_step-PanelFits s e f)
