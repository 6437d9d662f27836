-- ===== src/Room/Invites.antt =====
-- useRoomState.ts: the host's invites. The texts of the clipboard use the platform's
-- `toLocaleString` and `encodeURIComponent`.
use ivena_meet.Base.{
  if◌then◌else◌, take, trim, is_empty, to_decimal, Text, codes, ℕ, ◌+◌, Bool, true, false, ◌||◌,
  List, [], ◌∷◌, ◌++◌,
}
use ivena_meet.Types.{host, CreateInviteResp, InviteListItem}
use ivena_meet.World.{World}
use ivena_meet.World.Effect.{
  ok, thrown, M, ◌>>=◌, ◌>>◌, return, throw, modify, catching, finally, update_room, log_to,
  push_log,
}
use ivena_meet.World.Env.{Env, request}
use ivena_meet.Api.Client.Endpoints.{issue_invite, invites, revoke}
use ivena_meet.Session.{ok_notice, error_notice}
use ivena_meet.Room.{show_action_notice}

abbrev pub set_invite_items : List InviteListItem → World → World
set_invite_items items = update_room (λ r. record r { invite_items = items })

abbrev pub set_loading : Bool → World → World
set_loading b = update_room (λ r. record r { invite_list_loading = b })

-- `setTimeout(() => setInviteCopied(false), …)`
abbrev pub hide_copied : World → World
hide_copied = update_room (λ r. record r { invite_copied = false })

module _ (env : Env) where
  abbrev invite_text : CreateInviteResp → Text
  invite_text payload =
      codes "房间链接："
      ++ (payload.invite_url
          ++ (codes "\n邀请码："
              ++ (payload.invite_code
                  ++ (codes "\n可使用人数："
                      ++ (to_decimal payload.invite_max_uses
                          ++ (codes "\n有效期至：" ++ env.locale_string payload.expires_at))))))

  -- `navigator.clipboard.writeText`, which the platform may refuse.
  unfoldable pub write_clipboard : Text → M (Unit {0})
  write_clipboard text w =
      if env.clipboard_accepts w.calls
      then (ok tt, record w { clipboard = text })
      else (thrown (codes "Write permission denied."), w)

  -- The list after a new invite: a failure is only logged.
  unfoldable pub list_again : World → M (Unit {0})
  unfolding request invites trim
  list_again captured =
      catching
        (do
          listed ←
              request env.on_list_invites captured
                (invites (trim captured.room_id) (trim captured.user_name))
          modify (set_invite_items listed.items))
        (λ e. push_log (codes "invite list refresh failed: " ++ e))

  abbrev pub host_room_url : World → Text
  host_room_url captured = codes "/?room=" ++ env.encode_uri_component (trim captured.room_id)

  unfoldable pub show_invite : World → CreateInviteResp → World → World
  show_invite captured payload w = show_action_notice ok_notice (codes "已复制微信群邀请文案") (
      log_to (codes "switched to host room url: " ++ host_room_url captured) (
        log_to (codes "invite issued and copied") (record w {
          address = host_room_url captured;
          role = host;
          room = record w.room {
            invite_code = payload.invite_code;
            invite_ticket = payload.invite_ticket;
            invite_copied = true;
          };
        })))

  unfoldable pub issue_invite_world : World → M (Unit {0})
  unfolding request issue_invite write_clipboard show_invite list_again trim
  issue_invite_world captured = do
    payload ← request env.on_issue_invite captured (
        issue_invite
          (record { room_id = trim captured.room_id; host_identity = trim captured.user_name }))
    write_clipboard (invite_text payload)
    modify (show_invite captured payload)
    list_again captured

  unfoldable pub refresh_invite_list : World → M (Unit {0})
  unfolding request invites is_empty trim
  refresh_invite_list captured =
      let room = trim captured.room_id in
      let name = trim captured.user_name in
      let load : M (Unit {0}) =
        finally
          (do
            listed ← request env.on_list_invites captured (invites room name)
            modify (set_invite_items listed.items)
            push_log
                (codes "invite list refreshed (" ++ (to_decimal (count listed.items) ++ codes ")")))
          (set_loading false) in
      if is_empty room || is_empty name then return tt else modify (set_loading true) >> load
    where
      count : List InviteListItem → ℕ
      count [] = 0
      count (i ∷ is) = 1 + count is

  unfoldable pub revoke_invite_world : World → Text → M (Unit {0})
  unfolding request revoke refresh_invite_list is_empty trim
  revoke_invite_world captured invite_ticket =
      let room = trim captured.room_id in
      let name = trim captured.user_name in
      let told : Bool → World → World = λ revoked w.
        if revoked
        then log_to (codes "invite revoked: " ++ (take 8 invite_ticket ++ codes "..."))
            (show_action_notice ok_notice (codes "邀请码已作废") w)
        else show_action_notice error_notice (codes "邀请码已失效或不存在") w in
      let revoking : M (Unit {0}) = (do
        result ← request env.on_revoke_invite captured (
            revoke
              (record { room_id = room; host_identity = name; invite_ticket = trim invite_ticket }))
        modify (told result.revoked)
        refresh_invite_list captured) in
      if is_empty room || is_empty name
      then throw (codes "room_id and host identity are required")
      else if is_empty (trim invite_ticket)
      then throw (codes "invite_ticket required")
      else revoking
