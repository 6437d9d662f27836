-- ===== src/World/Env.antt =====
-- What the program does not implement: the server's answers, the clock, the platform's texts.
-- An answer may depend on all requests before it.
use ivena_meet.Types.{
  HostLoginResp, JoinResp, LeaveResp, ForceReclaimResp, UploadAvatarResp, RedeemInviteResp,
  CreateInviteResp, ListInvitesResp, RevokeInviteResp, IssueBroadcastResp, StartBroadcastResp,
  CurrentBroadcastResp, MuteResp, SetMemberMediaPermissionResp,
}
use ivena_meet.Base.{Text, ℕ, Bool, List, [], ◌∷◌, ◌++◌}
use ivena_meet.Api.Client.{HttpRequest, Tokens, authorization}
use ivena_meet.World.{Call, World}
use ivena_meet.World.Effect.{Outcome, M}

abbrev pub Endpoint : Type 0 → Type 0
Endpoint A = List Call → HttpRequest → Outcome A

pub record Env : Type 0 where
  pub on_join : Endpoint JoinResp
  pub on_leave : Endpoint LeaveResp
  pub on_host_login : Endpoint HostLoginResp
  pub on_redeem : Endpoint RedeemInviteResp
  pub on_force_reclaim : Endpoint ForceReclaimResp
  pub on_issue_invite : Endpoint CreateInviteResp
  pub on_list_invites : Endpoint ListInvitesResp
  pub on_revoke_invite : Endpoint RevokeInviteResp
  pub on_issue_broadcast : Endpoint IssueBroadcastResp
  pub on_start_broadcast : Endpoint StartBroadcastResp
  pub on_stop_broadcast : Endpoint (Unit {0})
  pub on_current_broadcast : Endpoint CurrentBroadcastResp
  pub on_mute : Endpoint MuteResp
  pub on_media_permission : Endpoint SetMemberMediaPermissionResp
  pub on_upload_avatar : Endpoint UploadAvatarResp
  pub seconds : List Call → ℕ
  pub clipboard_accepts : List Call → Bool
  pub to_lower_case : Text → Text
  pub encode_uri_component : Text → Text
  pub locale_string : Text → Text
  pub locale_time_string : ℕ → Text

-- A request by the client of a render: its tokens are those that the render captured.
unfoldable pub request : {A : Type 0} → Endpoint A → World → HttpRequest → M A
request answer captured r w =
    let tokens : Tokens = record {
      control_token = captured.host_session_token;
      app_session_token = captured.app_session_token;
    } in
    (
      answer w.calls r,
      record w {
        calls = w.calls ++ record { request = r; authorized = authorization tokens r } ∷ [];
      },
    )
