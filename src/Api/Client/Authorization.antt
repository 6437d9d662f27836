-- ===== src/Api/Client/Authorization.antt =====
-- api.ts: which token a request carries.
use ivena_meet.Types.{ForceReclaimReq}
use ivena_meet.Base.{if◌then◌else◌, is_empty, Text, ◌≡◌, refl, ◌≢◌, some, [], ◌∷◌, arith}
use ivena_meet.Api.Client.{Tokens, bearer, intercept, authorization}
use ivena_meet.Api.Client.Endpoints.{force_reclaim_host_lock}

-- The token that a caller passes along goes out if the client holds no host session token, and is
-- written over by the client's own if it holds one.
pub force_reclaim-authorization :
    (t : Tokens) (payload : ForceReclaimReq) (override : Text)
    → override ≢ []
    → authorization t (force_reclaim_host_lock payload (some override))
      ≡ (if is_empty t.control_token then some (bearer override) else some (bearer t.control_token))
unfolding authorization intercept force_reclaim_host_lock is_empty
force_reclaim-authorization t payload [] n = absurd (n refl)
force_reclaim-authorization t payload (c ∷ override) n = ground arith
