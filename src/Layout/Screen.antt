-- ===== src/Layout/Screen.antt =====
-- Layout.tsx: how the screen is divided. A handler reads what its render has captured, the first
-- state that it is given, and changes the state of the moment, the second; a handler that awaits is
-- one function for each stretch between two awaits.
pub mod Modes
pub mod Calls
pub mod Views
use ivena_meet.Base.{
  if◌then◌else◌, Text, codes, Bool, true, false, not, ◌&&◌, ◌||◌, Option, none, some, List, [], ◌∷◌,
  ◌++◌,
}
use ivena_meet.Types.{Role, is_host}

pub data MobilePane : Type 0 where
  control_pane stage_pane chat_pane : MobilePane

-- Calls of the fullscreen API of the browser.
pub data FullscreenCall : Type 0 where
  request_fullscreen exit_fullscreen : FullscreenCall

-- `session` is `joined?.role`; `fullscreen_element` says whether the document has one.
pub record Screen : Type 0 where
  pub session : Option Role
  pub role : Role
  pub has_visual_media : Bool
  pub theater_mode : Bool
  pub is_fullscreen : Bool
  pub local_screen_share_active : Bool
  pub chat_dominant : Bool
  pub theater_control_open : Bool
  pub theater_chat_open : Bool
  pub mobile_pane : MobilePane
  pub desktop_sidebar_open : Bool
  pub desktop_chat_open : Bool
  pub fullscreen_element : Bool
  pub fullscreen_calls : List FullscreenCall
  pub logs : List Text

-- The first render.
unfoldable pub mount_screen : Option Role → Role → Screen
mount_screen session role = record {
  session = session;
  role = role;
  has_visual_media = false;
  theater_mode = false;
  is_fullscreen = false;
  local_screen_share_active = false;
  chat_dominant = false;
  theater_control_open = false;
  theater_chat_open = false;
  mobile_pane = stage_pane;
  desktop_sidebar_open = true;
  desktop_chat_open = false;
  fullscreen_element = false;
  fullscreen_calls = [];
  logs = [];
}

abbrev pub is_joined : Option Role → Bool
is_joined none = false
is_joined (some r) = true

-- `joined?.role ?? role`
abbrev pub role_or : Role → Option Role → Role
role_or r none = r
role_or r (some q) = q

unfoldable pub in_theater_mode : Screen → Bool
in_theater_mode s = is_joined s.session && (s.has_visual_media && s.theater_mode)

unfoldable pub is_host_view : Screen → Bool
is_host_view s = is_host (role_or s.role s.session)

unfoldable pub chat_priority_mode : Screen → Bool
chat_priority_mode s = is_joined s.session && (s.chat_dominant || not s.has_visual_media)

unfoldable pub stage_mode_label : Screen → Text
unfolding chat_priority_mode
stage_mode_label s =
    if is_joined s.session
    then if chat_priority_mode s then codes "CHAT_MODE" else codes "STAGE_MODE"
    else codes "STANDBY"

-- The effects, in their order in the source.
unfoldable pub forget_media_effect : Screen → Screen → Screen
forget_media_effect r s =
    if not (is_joined r.session)
    then record s { has_visual_media = false; chat_dominant = false }
    else s

unfoldable pub forget_share_effect : Screen → Screen → Screen
forget_share_effect r s =
    if not (is_joined r.session) then record s { local_screen_share_active = false } else s

unfoldable pub leave_theater_effect : Screen → Screen → Screen
leave_theater_effect r s =
    if not (is_joined r.session) || not r.has_visual_media
    then record s { theater_mode = false }
    else s

unfoldable pub close_panels_effect : Screen → Screen → Screen
unfolding in_theater_mode
close_panels_effect r s =
    if not (in_theater_mode r)
    then record s { theater_control_open = false; theater_chat_open = false }
    else s

unfoldable pub show_stage_effect : Screen → Screen → Screen
unfolding in_theater_mode
show_stage_effect r s = if in_theater_mode r then record s { mobile_pane = stage_pane } else s

unfoldable pub close_drawer_effect : Screen → Screen → Screen
unfolding in_theater_mode
close_drawer_effect r s = if in_theater_mode r then record s { desktop_chat_open = false } else s

unfoldable pub forget_chat_effect : Screen → Screen → Screen
forget_chat_effect r s = if not r.has_visual_media then record s { chat_dominant = false } else s

-- `onFullscreenChange`, once the document has a fullscreen element or has none.
unfoldable pub on_fullscreen_change : Bool → Screen → Screen
on_fullscreen_change active s =
    let seen = record s { fullscreen_element = active; is_fullscreen = active } in
    if not active then record seen { theater_mode = false } else seen

-- `localScreenShareActive || isHostSession`
abbrev pub keeps_window : Screen → Bool
keeps_window r = r.local_screen_share_active || is_host (role_or r.role r.session)

abbrev pub call_fullscreen : FullscreenCall → Screen → Screen
call_fullscreen c s = record s { fullscreen_calls = s.fullscreen_calls ++ c ∷ [] }

-- `toggleFullscreenStage` until it awaits.
unfoldable pub toggle_fullscreen_stage : Screen → Screen → Screen
toggle_fullscreen_stage r s =
    if not (is_joined r.session) || not r.has_visual_media
    then s
    else if keeps_window r
    then record s { chat_dominant = false; theater_mode = not s.theater_mode }
    else if s.fullscreen_element
    then call_fullscreen exit_fullscreen s
    else call_fullscreen request_fullscreen
        (record s { chat_dominant = false; theater_mode = true })

unfoldable pub stage_exited : Screen → Screen
stage_exited s = record s { theater_mode = false }

unfoldable pub stage_entered : Screen → Screen
stage_entered s = record s { is_fullscreen = true }

unfoldable pub stage_failed : Text → Screen → Screen
stage_failed e s = record s { logs = s.logs ++ (codes "fullscreen failed: " ++ e) ∷ [] }

-- The end of `toggleChatFocusLayout`.
unfoldable pub chat_focused : Screen → Screen
chat_focused s = record s { is_fullscreen = false; theater_mode = false; chat_dominant = true }

-- `toggleChatFocusLayout` until it awaits, or to its end where it does not.
unfoldable pub toggle_chat_focus_layout : Screen → Screen → Screen
unfolding chat_focused
toggle_chat_focus_layout r s =
    if not (is_joined r.session) || not r.has_visual_media
    then s
    else if r.chat_dominant
    then record s { chat_dominant = false }
    else if s.fullscreen_element
        && (not r.local_screen_share_active && not (is_host (role_or r.role r.session)))
    then call_fullscreen exit_fullscreen s
    else chat_focused s

unfoldable pub chat_exit_failed : Text → Screen → Screen
unfolding chat_focused
chat_exit_failed e s =
    chat_focused (record s { logs = s.logs ++ (codes "exit fullscreen failed: " ++ e) ∷ [] })

unfoldable pub toggle_theater_control_panel : Screen → Screen
toggle_theater_control_panel s =
    let next = not s.theater_control_open in
    record s {
      theater_control_open = next;
      theater_chat_open = if next then false else s.theater_chat_open;
    }

unfoldable pub toggle_theater_chat_panel : Screen → Screen
toggle_theater_chat_panel s =
    let next = not s.theater_chat_open in
    record s {
      theater_chat_open = next;
      theater_control_open = if next then false else s.theater_control_open;
    }
