-- ===== src/Tests/Pages.antt =====
-- Runs of the chat's view, the panels, the theme, the avatars and the client.
use ivena_meet.Base.{trim, is_empty, Text, codes, ◌≡◌, refl, true, some, [], arith}
use ivena_meet.Types.{ForceReclaimReq}
use ivena_meet.Storage.{Storage}
use ivena_meet.Avatar.{load_cached_avatar, save_cached_avatar, resolve_avatar_src}
use ivena_meet.Avatar.Laws.{load-save_cached_avatar, resolve_avatar_src_idem}
use ivena_meet.Api.Client.{Tokens, bearer, authorization}
use ivena_meet.Api.Client.Endpoints.{force_reclaim_host_lock}
use ivena_meet.Api.Client.Authorization.{force_reclaim-authorization}

abbrev test_storage : Storage
test_storage = record { items = []; is_readable = true; is_writable = true }

-- A stand-in for `toLowerCase`, which leaves lower case alone.
abbrev lower : Text → Text
lower t = t

ada_trimmed : trim (codes " ada ") ≡ codes "ada"
unfolding trim
ada_trimmed = refl

load-save_cached_avatar_example :
    load_cached_avatar lower
      (codes "ada")
      (save_cached_avatar lower (codes " ada ") (codes "/avatars/1") test_storage)
    ≡ trim (codes "/avatars/1")
unfolding trim
load-save_cached_avatar_example =
    load-save_cached_avatar lower (codes " ada ") (codes "ada") (codes "/avatars/1") test_storage
      refl refl (λ e. ground (arith, e)) (λ e. ground (arith, e)) (λ e. ground (arith, e)) refl

resolve_avatar_src_idem_example :
    let src = resolve_avatar_src (codes "https://m") (codes "avatars/1") in
    resolve_avatar_src (codes "https://m") src ≡ src
resolve_avatar_src_idem_example = resolve_avatar_src_idem (codes "https://m") (codes "avatars/1")

abbrev stale_tokens : Tokens
stale_tokens = record { control_token = codes "old"; app_session_token = [] }

abbrev reclaim_payload : ForceReclaimReq
reclaim_payload = record { room_id = codes "r1"; host_identity = codes "ada" }

force_reclaim-authorization_example :
    authorization stale_tokens (force_reclaim_host_lock reclaim_payload (some (codes "new")))
    ≡ some (bearer (codes "old"))
unfolding is_empty
force_reclaim-authorization_example =
    force_reclaim-authorization stale_tokens reclaim_payload (codes "new") (λ e. ground (arith, e))
