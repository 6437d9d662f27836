-- ===== src/Room/Enter.antt =====
-- useRoomState.ts: what joinRoom asks the server for: the redeem token, the login, the join.
use ivena_meet.Types.{is_host, is_member, JoinReq, JoinResp, ForceReclaimResp}
use ivena_meet.Base.{
  if◌then◌else◌, trim, is_empty, to_decimal, Text, codes, ◌+◌, Bool, not, ◌&&◌, ◌||◌, Option, none,
  some, ◌++◌,
}
use ivena_meet.World.{World}
use ivena_meet.World.Effect.{M, ◌>>=◌, ◌>>◌, return, throw, modify, catching, update_room, push_log}
use ivena_meet.World.Env.{Env, request}
use ivena_meet.Api.Client.Endpoints.{join, login_host_with_totp, redeem, force_reclaim_host_lock}
use ivena_meet.Room.{invite_mode, effective_role}
use ivena_meet.Room.Urls.{persistable_avatar_url, is_identity_in_use_error}

-- `token || undefined`
abbrev pub non_empty : Text → Option Text
non_empty t = if is_empty t then none else some t

module _ (env : Env) where
  -- The redeeming of the invite.
  unfoldable pub redeem_now : World → M Text
  unfolding redeem request trim
  redeem_now captured = do
    got ← request env.on_redeem captured (
        redeem (record {
          room_id = trim captured.room_id;
          user_name = trim captured.user_name;
          invite_ticket = trim captured.room.invite_ticket;
          invite_code = trim captured.room.invite_code;
        }))
    modify (update_room (λ q. record q { redeem_token = got.redeem_token }))
    push_log (codes "invite redeemed")
    return got.redeem_token

  -- The redeem token: the one at hand, or one that the invite is redeemed for.
  unfoldable pub redeem_step : World → M Text
  unfolding invite_mode effective_role redeem_now is_empty trim
  redeem_step captured =
      let r = captured.room in
      let token = trim r.redeem_token in
      if (captured.require_invite || invite_mode captured)
        && (is_member (effective_role captured) && is_empty token)
      then (if is_empty (trim r.invite_code) || is_empty (trim r.invite_ticket)
          then throw (codes "invite_code and invite_ticket required")
          else redeem_now captured)
      else return token

  -- The host's login, which gives the token that the join is authorized by.
  unfoldable pub login_step : World → M (Option Text)
  unfolding effective_role login_host_with_totp request
  login_step captured =
      let login : M (Option Text) = (do
        verified ← request env.on_host_login captured (
            login_host_with_totp (record {
              room_id = trim captured.room_id;
              host_identity = trim captured.user_name;
              totp_code = trim captured.room.host_totp_code;
            }))
        modify λ w. record w {
          host_session_token = verified.host_session_token;
          room = record w.room {
            host_session_expire_at = env.seconds w.calls + verified.expires_in_seconds;
          };
        }
        push_log (codes "host login verified")
        return (some verified.host_session_token)) in
      if is_host (effective_role captured) then login else return none

  abbrev pub join_payload : World → Text → JoinReq
  join_payload captured token = record {
    room_id = trim captured.room_id;
    user_name = trim captured.user_name;
    role = some (effective_role captured);
    redeem_token = non_empty token;
    nickname = some (trim captured.user_name);
    avatar_url = persistable_avatar_url captured.avatar.avatar_preview;
  }

  abbrev pub reclaim_line : Text → ForceReclaimResp → Text
  reclaim_line label reclaimed =
      label
      ++ (reclaimed.reason
          ++ (codes " (stale_age=" ++ (to_decimal reclaimed.stale_age_seconds ++ codes "s)")))

  abbrev pub reclaim_request : World → Option Text → M ForceReclaimResp
  reclaim_request captured auth = request env.on_force_reclaim captured (
      force_reclaim_host_lock
        (record { room_id = trim captured.room_id; host_identity = trim captured.user_name }) auth)

  -- The join, and for a host whose identity is taken one reclaim of it and one more join.
  unfoldable pub join_step : World → Bool → Text → Option Text → M JoinResp
  unfolding effective_role join request persistable_avatar_url is_identity_in_use_error
      force_reclaim_host_lock
  join_step captured skip_auto_reclaim token auth =
      let attempt = request env.on_join captured (join (join_payload captured token) auth) in
      let reclaim_and_retry : M JoinResp = (do
        reclaimed ← reclaim_request captured auth
        push_log (reclaim_line (codes "host reclaim(auto): ") reclaimed)
        attempt) in
      catching attempt λ e.
        if is_host (effective_role captured)
          && (not skip_auto_reclaim && is_identity_in_use_error env.to_lower_case e)
        then reclaim_and_retry
        else throw e
