-- ===== src/Layout/Screen/Modes.antt =====
-- Layout.tsx: everything that changes how the screen is divided, in any order.
use ivena_meet.Base.{Text, ◌≡◌, refl, Bool, true, false, not, ◌&&◌, Option, List, [], ◌∷◌, arith}
use ivena_meet.Types.{Role}
use ivena_meet.Layout.Screen.{
  MobilePane, Screen, forget_media_effect, forget_share_effect, leave_theater_effect,
  close_panels_effect, show_stage_effect, close_drawer_effect, forget_chat_effect,
  on_fullscreen_change, keeps_window, toggle_fullscreen_stage, stage_exited, stage_entered,
  stage_failed, chat_focused, toggle_chat_focus_layout, chat_exit_failed,
  toggle_theater_control_panel, toggle_theater_chat_panel,
}

-- The stretches of the handlers and the effects. Those that read a captured state carry it.
pub data ScreenEvent : Type 0 where
  pressed_stage pressed_chat : Screen → ScreenEvent
  stage_exit_done stage_entry_done chat_exit_done : ScreenEvent
  stage_call_refused chat_call_refused : Text → ScreenEvent
  pressed_control_panel pressed_chat_panel : ScreenEvent
  closed_control_panel closed_chat_panel : ScreenEvent
  forgot_media forgot_share left_theater closed_panels : Screen → ScreenEvent
  showed_stage closed_drawer forgot_chat : Screen → ScreenEvent
  fullscreen_changed : Bool → ScreenEvent
  session_changed : Option Role → Role → ScreenEvent
  media_changed share_changed : Bool → ScreenEvent
  pane_chosen : MobilePane → ScreenEvent
  sidebar_toggled drawer_toggled : ScreenEvent

unfoldable pub screen_step : Screen → ScreenEvent → Screen
screen_step s (pressed_stage r) = toggle_fullscreen_stage r s
screen_step s (pressed_chat r) = toggle_chat_focus_layout r s
screen_step s stage_exit_done = stage_exited s
screen_step s stage_entry_done = stage_entered s
screen_step s chat_exit_done = chat_focused s
screen_step s (stage_call_refused e) = stage_failed e s
screen_step s (chat_call_refused e) = chat_exit_failed e s
screen_step s pressed_control_panel = toggle_theater_control_panel s
screen_step s pressed_chat_panel = toggle_theater_chat_panel s
screen_step s closed_control_panel = record s { theater_control_open = false }
screen_step s closed_chat_panel = record s { theater_chat_open = false }
screen_step s (forgot_media r) = forget_media_effect r s
screen_step s (forgot_share r) = forget_share_effect r s
screen_step s (left_theater r) = leave_theater_effect r s
screen_step s (closed_panels r) = close_panels_effect r s
screen_step s (showed_stage r) = show_stage_effect r s
screen_step s (closed_drawer r) = close_drawer_effect r s
screen_step s (forgot_chat r) = forget_chat_effect r s
screen_step s (fullscreen_changed active) = on_fullscreen_change active s
screen_step s (session_changed session role) = record s { session = session; role = role }
screen_step s (media_changed b) = record s { has_visual_media = b }
screen_step s (share_changed b) = record s { local_screen_share_active = b }
screen_step s (pane_chosen pane) = record s { mobile_pane = pane }
screen_step s sidebar_toggled = record s { desktop_sidebar_open = not s.desktop_sidebar_open }
screen_step s drawer_toggled = record s { desktop_chat_open = not s.desktop_chat_open }

unfoldable pub screen_run : Screen → List ScreenEvent → Screen
unfolding screen_step
screen_run s [] = s
screen_run s (e ∷ es) = screen_run (screen_step s e) es

-- Neither the theater and the chat layout, nor both panels of the theater, at once.
abbrev pub IsExclusive : Screen → Type 0
IsExclusive s =
    (s.theater_mode && s.chat_dominant ≡ false)
    × (s.theater_control_open && s.theater_chat_open ≡ false)

pub toggle_fullscreen_stage-IsExclusive :
    (r s : Screen) → IsExclusive s → IsExclusive (toggle_fullscreen_stage r s)
unfolding toggle_fullscreen_stage
toggle_fullscreen_stage-IsExclusive r s h = ground arith

toggle_chat_focus_layout-IsExclusive :
    (r s : Screen) → IsExclusive s → IsExclusive (toggle_chat_focus_layout r s)
unfolding toggle_chat_focus_layout chat_focused
toggle_chat_focus_layout-IsExclusive r s h = ground arith

panels-IsExclusive :
    (s : Screen)
    → IsExclusive s
    → IsExclusive (toggle_theater_control_panel s) × IsExclusive (toggle_theater_chat_panel s)
unfolding toggle_theater_control_panel toggle_theater_chat_panel
panels-IsExclusive s h = ground arith

effects-IsExclusive :
    (r s : Screen)
    → IsExclusive s
    → IsExclusive (forget_media_effect r s)
      × IsExclusive (leave_theater_effect r s)
      × IsExclusive (close_panels_effect r s)
      × IsExclusive (forget_chat_effect r s)
unfolding forget_media_effect leave_theater_effect close_panels_effect forget_chat_effect
effects-IsExclusive r s h = ground arith

quiet_effects-IsExclusive :
    (r s : Screen)
    → IsExclusive s
    → IsExclusive (forget_share_effect r s)
      × IsExclusive (show_stage_effect r s)
      × IsExclusive (close_drawer_effect r s)
unfolding forget_share_effect show_stage_effect close_drawer_effect
quiet_effects-IsExclusive r s h = ground arith

screen_step-IsExclusive :
    (s : Screen) (e : ScreenEvent) → IsExclusive s → IsExclusive (screen_step s e)
unfolding screen_step stage_exited stage_entered stage_failed chat_focused chat_exit_failed
    on_fullscreen_change
screen_step-IsExclusive s (pressed_stage r) h = toggle_fullscreen_stage-IsExclusive r s h
screen_step-IsExclusive s (pressed_chat r) h = toggle_chat_focus_layout-IsExclusive r s h
screen_step-IsExclusive s stage_exit_done h = (refl, h.1)
screen_step-IsExclusive s stage_entry_done h = h
screen_step-IsExclusive s chat_exit_done h = (refl, h.1)
screen_step-IsExclusive s (stage_call_refused e) h = h
screen_step-IsExclusive s (chat_call_refused e) h = (refl, h.1)
screen_step-IsExclusive s pressed_control_panel h = (panels-IsExclusive s h).0
screen_step-IsExclusive s pressed_chat_panel h = (panels-IsExclusive s h).1
screen_step-IsExclusive s closed_control_panel h = (h.0, refl)
screen_step-IsExclusive s closed_chat_panel h = ground arith
screen_step-IsExclusive s (forgot_media r) h = let (a, b, c, d) = effects-IsExclusive r s h in a
screen_step-IsExclusive s (left_theater r) h = let (a, b, c, d) = effects-IsExclusive r s h in b
screen_step-IsExclusive s (closed_panels r) h = let (a, b, c, d) = effects-IsExclusive r s h in c
screen_step-IsExclusive s (forgot_chat r) h = let (a, b, c, d) = effects-IsExclusive r s h in d
screen_step-IsExclusive s (forgot_share r) h = let (a, b, c) = quiet_effects-IsExclusive r s h in a
screen_step-IsExclusive s (showed_stage r) h = let (a, b, c) = quiet_effects-IsExclusive r s h in b
screen_step-IsExclusive s (closed_drawer r) h = let (a, b, c) = quiet_effects-IsExclusive r s h in c
screen_step-IsExclusive s (fullscreen_changed active) h = ground arith
screen_step-IsExclusive s (session_changed session role) h = h
screen_step-IsExclusive s (media_changed b) h = h
screen_step-IsExclusive s (share_changed b) h = h
screen_step-IsExclusive s (pane_chosen pane) h = h
screen_step-IsExclusive s sidebar_toggled h = h
screen_step-IsExclusive s drawer_toggled h = h

-- From a state with at most one layout and at most one panel of the theater, no events in any order,
-- whatever the renders of their handlers had captured, lead to the theater and the chat layout, or
-- to both panels, at once.
pub screen_run-IsExclusive :
    (s : Screen) (es : List ScreenEvent) → IsExclusive s → IsExclusive (screen_run s es)
unfolding screen_run
screen_run-IsExclusive s [] h = h
screen_run-IsExclusive s (e ∷ es) h =
    screen_run-IsExclusive (screen_step s e) es (screen_step-IsExclusive s e h)

-- If the event is one of the two buttons, its render is a host's or shares the screen.
abbrev pub KeepsWindow : ScreenEvent → Type 0
KeepsWindow (pressed_stage r) = keeps_window r ≡ true
KeepsWindow (pressed_chat r) = keeps_window r ≡ true
KeepsWindow e = Unit
