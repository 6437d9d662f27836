-- ===== src/Api/Client.antt =====
-- api.ts: the requests of `createApi`, and the authorization that each is sent with. The HTTP
-- library merges the headers of a call into the request and then runs the interceptors.
pub mod Endpoints
pub mod Authorization
use ivena_meet.Types.{
  JoinReq, HostLoginTotpReq, ForceReclaimReq, RedeemInviteReq, CreateInviteReq, RevokeInviteReq,
  IssueBroadcastReq, StartBroadcastReq, StopBroadcastReq, CurrentBroadcastReq, MuteMemberReq,
  MuteAllReq, SetMemberMediaPermissionReq, CreateMessageReq,
}
use ivena_meet.Base.{
  if◌then◌else◌, strip_slashes, is_empty, Text, codes, ℤ, ℕ, not, Option, some, ◌++◌,
}

-- The three axios instances.
pub data Channel : Type 0 where
  raw with_control with_app_session : Channel

pub data Method : Type 0 where
  get_method post_method : Method

-- What is sent: the JSON body of a POST, or the query of a GET.
pub data Payload : Type 0 where
  nothing : Payload
  join_req : JoinReq → Payload
  host_login : HostLoginTotpReq → Payload
  redeem_invite : RedeemInviteReq → Payload
  force_reclaim : ForceReclaimReq → Payload
  create_invite : CreateInviteReq → Payload
  list_invites : Text → Text → Payload
  revoke_invite : RevokeInviteReq → Payload
  issue_broadcast : IssueBroadcastReq → Payload
  start_broadcast : StartBroadcastReq → Payload
  stop_broadcast : StopBroadcastReq → Payload
  current_broadcast : CurrentBroadcastReq → Payload
  mute_member : MuteMemberReq → Payload
  mute_all : MuteAllReq → Payload
  media_permission : SetMemberMediaPermissionReq → Payload
  list_messages : ℕ → Option ℤ → Payload
  create_message : CreateMessageReq → Payload
  avatar_upload : Text → Payload

pub record HttpRequest : Type 0 where
  pub channel : Channel
  pub method : Method
  pub path : Text
  pub payload : Payload
  pub header : Option Text

-- `TokenGetters`, at the moment of a call.
pub record Tokens : Type 0 where
  pub control_token : Text
  pub app_session_token : Text

-- `Bearer ${token}`
abbrev pub bearer : Text → Text
bearer token = codes "Bearer " ++ token

-- The interceptors: a token that is there is written over the header of the call.
unfoldable pub intercept : Text → Option Text → Option Text
unfolding is_empty
intercept token header = if is_empty token then header else some (bearer token)

-- The Authorization header that goes out.
unfoldable pub authorization : Tokens → HttpRequest → Option Text
unfolding intercept
authorization t r = elim r.channel [
  | raw ↦ r.header
  | with_control ↦ intercept t.control_token r.header
  | with_app_session ↦ intercept t.app_session_token r.header
]

-- `toError`: the text of the error that every call throws; the body's `error` and the library's
-- message are texts, empty where they are missing.
unfoldable pub to_error : Text → Text → Text
unfolding is_empty
to_error body_error message =
    if not (is_empty body_error)
    then body_error
    else if not (is_empty message)
    then message
    else codes "request failed"

unfoldable pub resolve_api_url : Text → Text → Text
unfolding strip_slashes
resolve_api_url base_url path = strip_slashes base_url ++ path
