-- ===== src/Layout/Screen/Views.antt =====
-- Layout.tsx: what the two buttons of the stage promise, apart from how the state keeps it.
use ivena_meet.Base.{
  if◌then◌else◌, ◌≡◌, refl, ap, ◌∙◌, Bool, true, false, not, ◌&&◌, ◌||◌, List, [], ◌∷◌, arith,
}
use ivena_meet.Layout.Screen.{
  Screen, is_joined, in_theater_mode, chat_priority_mode, on_fullscreen_change, keeps_window,
  toggle_fullscreen_stage, stage_exited, stage_entered, chat_focused, toggle_chat_focus_layout,
}
use ivena_meet.Layout.Screen.Modes.{IsExclusive}

-- What is in view: nothing yet, the chat for want of media, or one of the three layouts.
pub data View : Type 0 where
  standby waiting chat_view stage_view theater_view : View

pub record Abstract : Type 0 where
  pub view : View
  pub full : Bool
  pub keeps : Bool

pub data Press : Type 0 where
  stage_button chat_button : Press

-- `full` is whether the browser is in fullscreen, `keeps` whether the window must be kept.
abbrev pub stage_next : Bool → Bool → View → View
stage_next keeps full standby = standby
stage_next keeps full waiting = waiting
stage_next true full theater_view = stage_view
stage_next true full chat_view = theater_view
stage_next true full stage_view = theater_view
stage_next false true theater_view = stage_view
stage_next false true chat_view = chat_view
stage_next false true stage_view = stage_view
stage_next false false chat_view = theater_view
stage_next false false stage_view = theater_view
stage_next false false theater_view = theater_view

abbrev pub chat_next : View → View
chat_next standby = standby
chat_next waiting = waiting
chat_next chat_view = stage_view
chat_next stage_view = chat_view
chat_next theater_view = chat_view

abbrev pub has_media : View → Bool
has_media standby = false
has_media waiting = false
has_media chat_view = true
has_media stage_view = true
has_media theater_view = true

abbrev pub leaves_full : View → Bool
leaves_full standby = false
leaves_full waiting = false
leaves_full chat_view = false
leaves_full stage_view = true
leaves_full theater_view = true

abbrev pub press_spec : Press → Abstract → Abstract
press_spec stage_button a = record a {
  view = stage_next a.keeps a.full a.view;
  full = if a.keeps then a.full else if has_media a.view then not a.full else a.full;
}
press_spec chat_button a = record a {
  view = chat_next a.view;
  full = if a.keeps then a.full else if leaves_full a.view then false else a.full;
}

abbrev pub run_spec : Abstract → List Press → Abstract
run_spec a [] = a
run_spec a (b ∷ bs) = run_spec (press_spec b a) bs

-- The state, seen from outside.
abbrev pub view_of : Screen → View
view_of s =
    if not (is_joined s.session)
    then standby
    else if not s.has_visual_media
    then waiting
    else if in_theater_mode s
    then theater_view
    else if chat_priority_mode s
    then chat_view
    else stage_view

abbrev pub abstract_of : Screen → Abstract
abstract_of s = record { view = view_of s; full = s.fullscreen_element; keeps = keeps_window s }

-- A button and what follows when the browser obeys: the document's event, then the rest of the
-- handler.
unfoldable pub press : Press → Screen → Screen
press stage_button s =
    let t = toggle_fullscreen_stage s s in
    if not (is_joined s.session) || not s.has_visual_media
    then t
    else if keeps_window s
    then t
    else if s.fullscreen_element
    then stage_exited (on_fullscreen_change false t)
    else stage_entered (on_fullscreen_change true t)
press chat_button s =
    let t = toggle_chat_focus_layout s s in
    if not (is_joined s.session) || not s.has_visual_media
    then t
    else if s.chat_dominant
    then t
    else if s.fullscreen_element && not (keeps_window s)
    then chat_focused (on_fullscreen_change false t)
    else t

unfoldable pub press_all : Screen → List Press → Screen
unfolding press
press_all s [] = s
press_all s (b ∷ bs) = press_all (press b s) bs

press-abstract_of :
    (b : Press) (s : Screen)
    → IsExclusive s
    → abstract_of (press b s) ≡ press_spec b (abstract_of s)
unfolding press toggle_fullscreen_stage toggle_chat_focus_layout chat_focused on_fullscreen_change
    stage_exited stage_entered in_theater_mode chat_priority_mode
press-abstract_of stage_button s h = ground arith
press-abstract_of chat_button s h = ground arith

press-IsExclusive : (b : Press) (s : Screen) → IsExclusive s → IsExclusive (press b s)
unfolding press toggle_fullscreen_stage toggle_chat_focus_layout chat_focused on_fullscreen_change
    stage_exited stage_entered
press-IsExclusive stage_button s h = ground arith
press-IsExclusive chat_button s h = ground arith

-- Pressing the two buttons, each time with the browser obeying, changes what is in view as the
-- specification says, which knows only the view, whether the browser is in fullscreen and whether
-- the window must be kept. The state at first has at most one layout and one panel.
pub press_all-abstract_of :
    (s : Screen) (bs : List Press)
    → IsExclusive s
    → abstract_of (press_all s bs) ≡ run_spec (abstract_of s) bs
unfolding press_all
press_all-abstract_of s [] h = refl
press_all-abstract_of s (b ∷ bs) h =
    press_all-abstract_of (press b s) bs (press-IsExclusive b s h)
    ∙ ap (λ a. run_spec a bs) (press-abstract_of b s h)
