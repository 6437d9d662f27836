-- ===== src/Room/Leave.antt =====
-- useRoomState.ts: leaving the room, with the cleanup that Sidebar.tsx hands down.
use ivena_meet.Base.{if◌then◌else◌, is_empty, Text, codes, Bool, true, not, ◌&&◌, ◌++◌}
use ivena_meet.World.{World}
use ivena_meet.World.Effect.{M, ◌>>=◌, ◌>>◌, modify, catching, when, push_log}
use ivena_meet.World.Env.{Env, request}
use ivena_meet.Api.Client.Endpoints.{leave_room}
use ivena_meet.Chat.View.{reset_chat_state}
use ivena_meet.Avatar.Sync.{is_joined, reset_avatar_transient}
use ivena_meet.Room.{clear_client_world}

-- `onLeaveCleanup`
unfoldable pub on_leave_cleanup : World → World
unfolding reset_avatar_transient reset_chat_state
on_leave_cleanup w = reset_avatar_transient (record w { chat_view = reset_chat_state w.chat_view })

abbrev leave_line : Bool → Text
leave_line released =
    if released
    then codes "left room (presence released)"
    else codes "left room (presence already cleared)"

module _ (env : Env) where
  unfoldable pub notify_leave : World → M (Unit {0})
  unfolding request leave_room
  notify_leave captured =
      catching
        (do res ← request env.on_leave captured leave_room; push_log (leave_line res.released))
        (λ e. push_log (codes "leave notify failed: Error: " ++ e))

  unfoldable pub leave_world : World → M (Unit {0})
  unfolding notify_leave clear_client_world on_leave_cleanup is_empty
  leave_world captured = do
    when (is_joined captured.joined && not (is_empty captured.app_session_token))
        (notify_leave captured)
    modify (clear_client_world true true)
    modify on_leave_cleanup
    push_log (codes "left room")
