-- ===== src/Tests/Layout.antt =====
-- The layout: its messages, its screen, its signal, and the chat panel.
use ivena_meet.Base.{
  length, get_elem?, text_eq, trim, includes, is_empty, Text, codes, text_eq_iff, pos, negsuc,
  eqb_ℤ_iff, ◌≡◌, refl, true, false, some, List, [], ◌∷◌, ◌++◌, arith,
}
use ivena_meet.Types.{host, member, MessageItem, RealtimeChatPayload}
use ivena_meet.Tests.{
  stored_message, sent_message, echoed_message, two_messages, test_session, test_reconnect,
}
use ivena_meet.Chat.Merge.{merge_messages}
use ivena_meet.Chat.Merge.Tracking.{UniqueClients}
use ivena_meet.Layout.Chat.{
  upsert_message, LayoutProps, LayoutChat, message_failed, retry_failed_chat_message,
}
use ivena_meet.Layout.Chat.Upsert.{UniqueIds}
use ivena_meet.Layout.Chat.Agree.{upsert_message-merge_messages}
use ivena_meet.Layout.Chat.Retry.{FailsAgain, retry-message_failed}
use ivena_meet.Layout.Screen.{Screen, mount_screen}
use ivena_meet.Layout.Screen.Modes.{
  ScreenEvent, pressed_stage, pressed_chat, pressed_control_panel, pressed_chat_panel, screen_run,
  IsExclusive, screen_run-IsExclusive,
}
use ivena_meet.Layout.Screen.Views.{
  Press, stage_button, chat_button, run_spec, abstract_of, press_all, press_all-abstract_of,
}
use ivena_meet.Layout.Screen.Calls.{screen_run-calls}
use ivena_meet.Layout.Signal.{
  mount_signal, recover_livekit_signal, recovery_succeeded, recovery_failed,
}
use ivena_meet.Layout.Signal.Spacing.{
  SignalEvent, issue, replied, signal_step, signal_run, SignalFits, signal_run-SignalFits,
}
use ivena_meet.Layout.Stored.{SessionText, Defaults, Kept, mount_kept, store_all}
use ivena_meet.Layout.Stored.Reload.{mount_kept-store_all}
use ivena_meet.Room.{app_session_key}
use ivena_meet.Stage.Link.{Link, handle_disconnected, is_signal_issue, handle_error}
use ivena_meet.Stage.Link.Recovery.{recovers_once}
use ivena_meet.ChatPanel.{mount_panel}
use ivena_meet.ChatPanel.Run.{
  PanelEvent, typed, pressed_send, send_refused, panel_run, PanelFits, panel_run-PanelFits,
}

two-UniqueClients : UniqueClients two_messages
two-UniqueClients c n = ground (arith, text_eq_iff (codes "c1") c, text_eq_iff (codes "c2") c)

two-UniqueIds : UniqueIds two_messages
two-UniqueIds k = ground (arith, eqb_ℤ_iff (pos 7) k, eqb_ℤ_iff (negsuc 4) k)

upsert_message-merge_messages_example :
    upsert_message two_messages echoed_message ≡ merge_messages two_messages (echoed_message ∷ [])
upsert_message-merge_messages_example =
    upsert_message-merge_messages two_messages echoed_message (ground arith, ground arith)
      two-UniqueClients two-UniqueIds (ground arith)

abbrev failed_message : MessageItem
failed_message = record sent_message { pending = some false; failed = some true }

abbrev failed_chat : LayoutChat
failed_chat = record { messages = stored_message ∷ failed_message ∷ []; logs = [] }

abbrev chat_props : LayoutProps
chat_props = record { session = some host; room_id = codes "r1"; user_name = codes "ada" }

retry-message_failed_example :
    (payload : RealtimeChatPayload) × (t : LayoutChat) × (retry_failed_chat_message chat_props
        failed_message
        (codes "c9")
        200
        failed_chat
      ≡ some (payload, t))
    × (payload.client_id ≡ codes "c9")
    × (payload.text ≡ trim (codes "again"))
    × (length (message_failed (codes "c9") t).messages ≡ 2)
    × FailsAgain failed_message
        (codes "c9")
        200
        failed_message
        (get_elem? (message_failed (codes "c9") t).messages 1)
unfolding trim is_empty text_eq
retry-message_failed_example =
    retry-message_failed chat_props host failed_message (codes "c9") 200 failed_chat refl refl refl
      refl refl (ground arith) refl 1 failed_message refl

-- A host with media on the stage.
abbrev host_screen : Screen
host_screen = record (mount_screen (some host) host) { has_visual_media = true }

abbrev screen_events : List ScreenEvent
screen_events =
    pressed_stage host_screen
    ∷ pressed_control_panel
    ∷ pressed_chat_panel
    ∷ pressed_chat host_screen
    ∷ []

screen_run-IsExclusive_example : IsExclusive (screen_run host_screen screen_events)
screen_run-IsExclusive_example =
    screen_run-IsExclusive host_screen screen_events (unfold mount_screen in (refl, refl))

screen_run-calls_example :
    (screen_run host_screen screen_events).fullscreen_calls ≡ host_screen.fullscreen_calls
unfolding mount_screen
screen_run-calls_example = screen_run-calls host_screen screen_events (refl, (tt, (tt, (refl, tt))))

abbrev member_screen : Screen
member_screen = record (mount_screen (some member) member) { has_visual_media = true }

abbrev presses : List Press
presses = stage_button ∷ chat_button ∷ stage_button ∷ stage_button ∷ []

press_all-abstract_of_example :
    abstract_of (press_all member_screen presses) ≡ run_spec (abstract_of member_screen) presses
press_all-abstract_of_example =
    press_all-abstract_of member_screen presses (unfold mount_screen in (refl, refl))

-- Two issues within six seconds, and one after.
abbrev signal_events : List SignalEvent
signal_events =
    issue (some test_session) (codes "a") (codes "failed to fetch") 1000
    ∷ replied test_reconnect
    ∷ issue (some test_session) (codes "a") (codes "failed to fetch") 3000
    ∷ issue (some test_session) (codes "a") (codes "failed to fetch") 8000
    ∷ []

signal_run-SignalFits_example :
    SignalFits (signal_run (mount_signal (some test_session)) signal_events)
signal_run-SignalFits_example =
    signal_run-SignalFits (mount_signal (some test_session)) signal_events
      (record { one_pending = refl; cooldown = tt; spaced = tt })

two_calls : (signal_run (mount_signal (some test_session)) signal_events).calls ≡ 8000 ∷ 1000 ∷ []
unfolding signal_run signal_step recover_livekit_signal recovery_succeeded
two_calls = refl

abbrev panel_events : List PanelEvent
panel_events =
    typed (codes "hi")
    ∷ pressed_send true
    ∷ pressed_send true
    ∷ send_refused (codes "hi") (codes "offline")
    ∷ []

panel_run-PanelFits_example : PanelFits (panel_run mount_panel panel_events)
panel_run-PanelFits_example =
    panel_run-PanelFits mount_panel panel_events
      (record { few = omega arith; at_end = λ h. refl; one_send = refl })

-- A storage text for the one session of the tests.
abbrev test_text : SessionText
test_text = record { write = λ j. codes "{}"; read = λ raw. some test_session }

abbrev test_kept : Kept
test_kept = record {
  host_session_token = codes "h";
  app_session_token = [];
  room_id = codes "r1";
  user_name = codes "ada";
  role = host;
  joined = some test_session;
}

abbrev test_defaults : Defaults
test_defaults = record { room_id = codes "test"; user_name = codes "guest_01"; role = member }

abbrev old_items : List (Text × Text)
old_items = (app_session_key, codes "old") ∷ (codes "other", codes "1") ∷ []

mount_kept-store_all_example :
    mount_kept test_text test_defaults false (store_all test_text false test_kept old_items).1
    ≡ test_kept
mount_kept-store_all_example =
    mount_kept-store_all test_text test_defaults test_kept old_items
      (unfold is_empty in (refl, refl))

abbrev test_link : Link
test_link = record {
  signal_failure = false;
  room_id = codes "r1";
  user_name = codes "ada";
  issues = [];
  logs = [];
}

fetch_issue : is_signal_issue (codes "TypeError: Failed to fetch") ≡ true
unfolding is_signal_issue includes
fetch_issue = refl

recovers_once_example :
    let m = handle_disconnected (handle_error (codes "TypeError: Failed to fetch") test_link) in
    let s = mount_signal (some test_session) in
    let t =
      recover_livekit_signal
        (some test_session)
        (codes "a")
        (codes "TypeError: Failed to fetch")
        1000
        s in
    let again =
      recover_livekit_signal
        (some test_session)
        (codes "a")
        (codes "disconnected_after_signal_error")
        4000 in
    (m.issues
      ≡ (test_link.issues ++ codes "TypeError: Failed to fetch" ∷ [])
        ++ codes "disconnected_after_signal_error" ∷ [])
    × ((handle_disconnected m).issues ≡ m.issues)
    × (t.calls ≡ 1000 ∷ s.calls)
    × ((again t).calls ≡ 1000 ∷ s.calls)
    × ((again (recovery_failed (codes "offline") t)).calls ≡ 1000 ∷ s.calls)
unfolding is_empty
recovers_once_example =
    recovers_once (codes "TypeError: Failed to fetch") (codes "a") (codes "offline") test_session
      1000 4000 test_link (mount_signal (some test_session)) fetch_issue refl refl refl refl
