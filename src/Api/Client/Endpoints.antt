-- ===== src/Api/Client/Endpoints.antt =====
-- api.ts: one function for each method of the object that `createApi` returns.
use ivena_meet.Types.{
  JoinReq, HostLoginTotpReq, ForceReclaimReq, RedeemInviteReq, CreateInviteReq, RevokeInviteReq,
  IssueBroadcastReq, StartBroadcastReq, StopBroadcastReq, CurrentBroadcastReq, MuteMemberReq,
  MuteAllReq, SetMemberMediaPermissionReq, CreateMessageReq,
}
use ivena_meet.Base.{
  if◌then◌else◌, is_empty, Text, codes, ℤ, pos, ltb_ℤ, ℕ, Option, none, some, ◌++◌,
}
use ivena_meet.Api.Client.{
  Channel, raw, with_control, with_app_session, get_method, post_method, Payload, nothing, join_req,
  host_login, redeem_invite, force_reclaim, create_invite, list_invites, revoke_invite,
  issue_broadcast, start_broadcast, stop_broadcast, current_broadcast, mute_member, mute_all,
  media_permission, list_messages, create_message, avatar_upload, HttpRequest, bearer,
}

abbrev post : Channel → Text → Payload → HttpRequest
post channel path payload = record {
  channel = channel;
  method = post_method;
  path = path;
  payload = payload;
  header = none;
}

abbrev get_request : Channel → Text → Payload → HttpRequest
get_request channel path payload = record {
  channel = channel;
  method = get_method;
  path = path;
  payload = payload;
  header = none;
}

-- `authToken ? { Authorization: `Bearer ${authToken}` } : undefined`
abbrev header_of : Option Text → Option Text
header_of none = none
header_of (some token) = if is_empty token then none else some (bearer token)

unfoldable pub join : JoinReq → Option Text → HttpRequest
unfolding is_empty
join payload auth_token = record (post raw (codes "/rooms/join") (join_req payload)) {
  header = header_of auth_token;
}

unfoldable pub reconnect_room : HttpRequest
reconnect_room = post with_app_session (codes "/rooms/reconnect") nothing

unfoldable pub leave_room : HttpRequest
leave_room = post with_app_session (codes "/rooms/leave") nothing

unfoldable pub login_host_with_totp : HostLoginTotpReq → HttpRequest
login_host_with_totp payload = post raw (codes "/host/login/totp") (host_login payload)

unfoldable pub refresh_host_session : HttpRequest
refresh_host_session = post with_control (codes "/host/sessions/refresh") nothing

unfoldable pub redeem : RedeemInviteReq → HttpRequest
redeem payload = post raw (codes "/invites/redeem") (redeem_invite payload)

unfoldable pub refresh_session : HttpRequest
refresh_session = post with_app_session (codes "/sessions/refresh") nothing

unfoldable pub heartbeat_session : HttpRequest
heartbeat_session = post with_app_session (codes "/sessions/heartbeat") nothing

unfoldable pub force_reclaim_host_lock : ForceReclaimReq → Option Text → HttpRequest
unfolding is_empty
force_reclaim_host_lock payload auth_token_override =
    record (post with_control (codes "/rooms/host/force-reclaim") (force_reclaim payload)) {
      header = header_of auth_token_override;
    }

unfoldable pub issue_invite : CreateInviteReq → HttpRequest
issue_invite payload = post with_control (codes "/auth/invite") (create_invite payload)

unfoldable pub invites : Text → Text → HttpRequest
invites room_id host_identity =
    get_request with_control (codes "/auth/invites") (list_invites room_id host_identity)

unfoldable pub revoke : RevokeInviteReq → HttpRequest
revoke payload = post with_control (codes "/auth/invite/revoke") (revoke_invite payload)

unfoldable pub issue : IssueBroadcastReq → HttpRequest
issue payload = post with_control (codes "/broadcast/issue") (issue_broadcast payload)

unfoldable pub start_broadcasting : StartBroadcastReq → HttpRequest
start_broadcasting payload = post with_control (codes "/broadcast/start") (start_broadcast payload)

unfoldable pub stop_broadcasting : StopBroadcastReq → HttpRequest
stop_broadcasting payload = post with_control (codes "/broadcast/stop") (stop_broadcast payload)

unfoldable pub broadcast_status : CurrentBroadcastReq → Option Text → HttpRequest
unfolding is_empty
broadcast_status payload auth_token_override =
    record (get_request with_control (codes "/broadcast/current") (current_broadcast payload)) {
      header = header_of auth_token_override;
    }

unfoldable pub mute_one : MuteMemberReq → HttpRequest
mute_one payload = post with_control (codes "/moderation/mute") (mute_member payload)

unfoldable pub mute_everyone : MuteAllReq → HttpRequest
mute_everyone payload = post with_control (codes "/moderation/mute-all") (mute_all payload)

unfoldable pub set_member_media_permission : SetMemberMediaPermissionReq → HttpRequest
set_member_media_permission payload =
    post with_control (codes "/moderation/media-permission") (media_permission payload)

-- `encodeURIComponent` is the platform's.
module _ (encode : Text → Text) where
  abbrev messages_path : Text → Text
  messages_path room_id = codes "/rooms/" ++ (encode room_id ++ codes "/messages")

  -- `if (afterId && afterId > 0)`
  abbrev positive : Option ℤ → Option ℤ
  positive none = none
  positive (some id) = if ltb_ℤ (pos 0) id then some id else none

  unfoldable pub messages_after : Text → ℕ → Option ℤ → HttpRequest
  messages_after room_id limit after =
      get_request with_app_session (messages_path room_id) (list_messages limit (positive after))

  unfoldable pub post_message : Text → CreateMessageReq → HttpRequest
  post_message room_id payload =
      post with_app_session (messages_path room_id) (create_message payload)

unfoldable pub upload_avatar : Text → Option Text → HttpRequest
unfolding is_empty
upload_avatar data_url app_token_override =
    record (post raw (codes "/users/avatar/upload") (avatar_upload data_url)) {
      header = header_of app_token_override;
    }
