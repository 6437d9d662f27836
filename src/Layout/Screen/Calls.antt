-- ===== src/Layout/Screen/Calls.antt =====
-- Layout.tsx: the browser's fullscreen is left alone while a host or a shared screen keeps the
-- window.
use ivena_meet.Base.{All, ◌≡◌, refl, ◌∙◌, true, List, [], ◌∷◌, arith}
use ivena_meet.Layout.Screen.{
  Screen, forget_media_effect, forget_share_effect, leave_theater_effect, close_panels_effect,
  show_stage_effect, close_drawer_effect, forget_chat_effect, on_fullscreen_change, keeps_window,
  toggle_fullscreen_stage, stage_exited, stage_entered, stage_failed, chat_focused,
  toggle_chat_focus_layout, chat_exit_failed, toggle_theater_control_panel,
  toggle_theater_chat_panel,
}
use ivena_meet.Layout.Screen.Modes.{
  ScreenEvent, pressed_stage, pressed_chat, stage_exit_done, stage_entry_done, chat_exit_done,
  stage_call_refused, chat_call_refused, pressed_control_panel, pressed_chat_panel,
  closed_control_panel, closed_chat_panel, forgot_media, forgot_share, left_theater, closed_panels,
  showed_stage, closed_drawer, forgot_chat, fullscreen_changed, session_changed, media_changed,
  share_changed, pane_chosen, sidebar_toggled, drawer_toggled, screen_step, screen_run, KeepsWindow,
}

buttons-calls :
    (r s : Screen)
    → keeps_window r ≡ true
    → ((toggle_fullscreen_stage r s).fullscreen_calls ≡ s.fullscreen_calls)
      × ((toggle_chat_focus_layout r s).fullscreen_calls ≡ s.fullscreen_calls)
unfolding toggle_fullscreen_stage toggle_chat_focus_layout chat_focused
buttons-calls r s h = ground arith

effects-calls :
    (r s : Screen)
    → ((forget_media_effect r s).fullscreen_calls ≡ s.fullscreen_calls)
      × ((leave_theater_effect r s).fullscreen_calls ≡ s.fullscreen_calls)
      × ((close_panels_effect r s).fullscreen_calls ≡ s.fullscreen_calls)
      × ((forget_chat_effect r s).fullscreen_calls ≡ s.fullscreen_calls)
      × ((forget_share_effect r s).fullscreen_calls ≡ s.fullscreen_calls)
      × ((show_stage_effect r s).fullscreen_calls ≡ s.fullscreen_calls)
      × ((close_drawer_effect r s).fullscreen_calls ≡ s.fullscreen_calls)
unfolding forget_media_effect leave_theater_effect close_panels_effect forget_chat_effect
    forget_share_effect show_stage_effect close_drawer_effect
effects-calls r s = ground arith

screen_step-calls :
    (s : Screen) (e : ScreenEvent)
    → KeepsWindow e
    → (screen_step s e).fullscreen_calls ≡ s.fullscreen_calls
unfolding screen_step stage_exited stage_entered stage_failed chat_focused chat_exit_failed
    on_fullscreen_change toggle_theater_control_panel toggle_theater_chat_panel
screen_step-calls s (pressed_stage r) h = (buttons-calls r s h).0
screen_step-calls s (pressed_chat r) h = (buttons-calls r s h).1
screen_step-calls s stage_exit_done h = refl
screen_step-calls s stage_entry_done h = refl
screen_step-calls s chat_exit_done h = refl
screen_step-calls s (stage_call_refused e) h = refl
screen_step-calls s (chat_call_refused e) h = refl
screen_step-calls s pressed_control_panel h = refl
screen_step-calls s pressed_chat_panel h = refl
screen_step-calls s closed_control_panel h = refl
screen_step-calls s closed_chat_panel h = refl
screen_step-calls s (forgot_media r) h = let (a, b, c, d, e, f, g) = effects-calls r s in a
screen_step-calls s (left_theater r) h = let (a, b, c, d, e, f, g) = effects-calls r s in b
screen_step-calls s (closed_panels r) h = let (a, b, c, d, e, f, g) = effects-calls r s in c
screen_step-calls s (forgot_chat r) h = let (a, b, c, d, e, f, g) = effects-calls r s in d
screen_step-calls s (forgot_share r) h = let (a, b, c, d, e, f, g) = effects-calls r s in e
screen_step-calls s (showed_stage r) h = let (a, b, c, d, e, f, g) = effects-calls r s in f
screen_step-calls s (closed_drawer r) h = let (a, b, c, d, e, f, g) = effects-calls r s in g
screen_step-calls s (fullscreen_changed active) h = ground arith
screen_step-calls s (session_changed session role) h = refl
screen_step-calls s (media_changed b) h = refl
screen_step-calls s (share_changed b) h = refl
screen_step-calls s (pane_chosen pane) h = refl
screen_step-calls s sidebar_toggled h = refl
screen_step-calls s drawer_toggled h = refl

-- While every press of the two buttons comes from a render of a host or of one who shares the
-- screen, no event calls the fullscreen API of the browser.
pub screen_run-calls :
    (s : Screen) (es : List ScreenEvent)
    → All KeepsWindow es
    → (screen_run s es).fullscreen_calls ≡ s.fullscreen_calls
unfolding screen_run
screen_run-calls s [] h = refl
screen_run-calls s (e ∷ es) h =
    screen_run-calls (screen_step s e) es h.1 ∙ screen_step-calls s e h.0
