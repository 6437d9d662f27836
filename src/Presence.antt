-- ===== src/Presence.antt =====
-- apps/frontend/src/hooks/sidebar/usePresenceState.ts: which panels are open.
use ivena_meet.Base.{if◌then◌else◌, ◌≡◌, Bool, true, false, not, ◌&&◌, arith}

pub data ConsolePane : Type 0 where
  control members ops : ConsolePane

pub record Panels : Type 0 where
  pub open_members : Bool
  pub open_chat : Bool
  pub open_logs : Bool
  pub console_pane : ConsolePane
  pub last_chat_priority_mode : Bool

unfoldable pub initial_panels : Bool → Panels
initial_panels chat_priority_mode = record {
  open_members = true;
  open_chat = true;
  open_logs = false;
  console_pane = control;
  last_chat_priority_mode = chat_priority_mode;
}

-- The effect on `chatPriorityMode`.
unfoldable pub on_priority : Bool → Panels → Panels
on_priority chat_priority_mode p =
    if chat_priority_mode && not p.last_chat_priority_mode
    then record p {
      open_members = false;
      open_chat = true;
      open_logs = false;
      last_chat_priority_mode = chat_priority_mode;
    }
    else record p { last_chat_priority_mode = chat_priority_mode }

-- `setConsolePane`, and the effect on it.
unfoldable pub select_pane : ConsolePane → Panels → Panels
select_pane control p = record p { console_pane = control }
select_pane members p = record p { console_pane = members; open_members = true }
select_pane ops p = record p { console_pane = ops; open_logs = true }

-- Entering the chat mode shows the chat alone, once: a further render in that mode leaves the
-- panels as the user has set them since.
pub on_priority_once :
    (p q : Panels)
    → p.last_chat_priority_mode ≡ false
    → q.last_chat_priority_mode ≡ (on_priority true p).last_chat_priority_mode
    → ((on_priority true p).open_chat ≡ true)
      × ((on_priority true p).open_members ≡ false)
      × ((on_priority true p).open_logs ≡ false)
      × (on_priority true q ≡ q)
unfolding on_priority
on_priority_once p q h k = ground arith
