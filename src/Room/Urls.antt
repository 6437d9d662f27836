-- ===== src/Room/Urls.antt =====
-- useRoomState.ts: the addresses of the broadcast and of the avatar.
use ivena_meet.Base.{
  if◌then◌else◌, drop, starts_with, trim, strip_slashes, includes, is_empty, Text, codes, Bool, not,
  ◌||◌, Option, none, some, [], ◌++◌,
}

unfoldable pub persistable_avatar_url : Text → Option Text
unfolding trim is_empty starts_with
persistable_avatar_url raw =
    let v = trim raw in
    if is_empty v
    then none
    else if starts_with v (codes "https://")
        || (starts_with v (codes "/api/avatars/") || starts_with v (codes "/avatars/"))
    then some v
    else none

unfoldable pub derive_whip_url : Text → Text → Text
unfolding trim is_empty strip_slashes starts_with
derive_whip_url whip_url lk_url =
    let direct = trim whip_url in
    let base = strip_slashes (trim lk_url) in
    if not (is_empty direct)
    then direct
    else if starts_with base (codes "wss://")
    then codes "https://" ++ (drop 6 base ++ codes "/w/")
    else if starts_with base (codes "ws://")
    then codes "http://" ++ (drop 5 base ++ codes "/w/")
    else []

unfoldable pub derive_obs_whip_endpoint : Text → Text → Text
unfolding trim is_empty strip_slashes
derive_obs_whip_endpoint whip_url stream_key =
    let base = strip_slashes (trim whip_url) in
    let key = trim stream_key in
    if is_empty base || is_empty key then [] else base ++ (codes "/" ++ key)

-- `toLowerCase` is the platform's.
unfoldable pub is_identity_in_use_error : (Text → Text) → Text → Bool
unfolding includes
is_identity_in_use_error to_lower_case message =
    includes (to_lower_case message) (codes "identity already in use")
