-- ===== src/Avatar.antt =====
-- apps/frontend/src/lib/avatar.ts: the avatar cache and the address of an avatar.
-- `toLowerCase` is the platform's.
pub mod Laws
pub mod Sync
pub mod Messages
pub mod Blobs
use ivena_meet.Types.{Opt, nullish}
use ivena_meet.Base.{
  if◌then◌else◌, drop, text_eq, starts_with, ends_with, trim, strip_slashes, strip_leading_slashes,
  is_empty, Text, codes, Bool, ◌||◌, none, some, [], ◌++◌,
}
use ivena_meet.Storage.{Storage, get_item, set_item, remove_item, or_same}

abbrev pub avatar_cache_prefix : Text
avatar_cache_prefix = codes "ivena.meet.avatar."

module _ (to_lower_case : Text → Text) where
  unfoldable pub avatar_cache_key : Text → Text
  unfolding trim
  avatar_cache_key user_name = avatar_cache_prefix ++ to_lower_case (trim user_name)

  unfoldable pub load_cached_avatar : Text → Storage → Text
  unfolding avatar_cache_key get_item is_empty text_eq
  load_cached_avatar user_name s =
      let key = avatar_cache_key user_name in
      if is_empty key || text_eq key avatar_cache_prefix
      then []
      else (elim (get_item key s) [ none ↦ [] | some none ↦ [] | some (some url) ↦ url ])

  unfoldable pub save_cached_avatar : Text → Text → Storage → Storage
  unfolding avatar_cache_key set_item is_empty
  save_cached_avatar user_name avatar_url s =
      let name = trim user_name in
      let url = trim avatar_url in
      if is_empty name || is_empty url
      then s
      else or_same (set_item (avatar_cache_key name) url s) s

  unfoldable pub clear_cached_avatar : Text → Storage → Storage
  unfolding avatar_cache_key remove_item is_empty
  clear_cached_avatar user_name s =
      let name = trim user_name in
      if is_empty name then s else or_same (remove_item (avatar_cache_key name) s) s

  unfoldable pub resolve_message_avatar : Opt Text → Text → Storage → Text
  unfolding load_cached_avatar is_empty
  resolve_message_avatar avatar_url user_name s =
      let direct = trim (nullish avatar_url []) in
      if is_empty direct then load_cached_avatar user_name s else direct

unfoldable pub http : Text
http = codes "http://"

unfoldable pub https : Text
https = codes "https://"

unfoldable pub avatars_path : Text
avatars_path = codes "/avatars/"

unfoldable pub api_path : Text
api_path = codes "/api/"

unfoldable pub is_http : Text → Bool
unfolding http https starts_with
is_http s = starts_with s http || starts_with s https

unfoldable pub is_absolute : Text → Bool
unfolding http https starts_with
is_absolute s = starts_with s http || (starts_with s https || starts_with s (codes "data:"))

unfoldable pub normalize_avatar : Text → Text
unfolding avatars_path starts_with
normalize_avatar raw = if starts_with raw avatars_path then codes "/api" ++ raw else raw

-- The branches on the normalized address, for the configured address without trailing slashes.
unfoldable pub resolve_normalized : Text → Text → Text
unfolding is_http is_absolute api_path starts_with ends_with strip_leading_slashes
resolve_normalized base normalized =
    if is_absolute normalized
    then normalized
    else if starts_with normalized api_path
    then (if is_http base
        then (if ends_with base (codes "/api")
            then base ++ drop 4 normalized
            else base ++ normalized)
        else normalized)
    else if starts_with normalized (codes "/")
    then (if is_http base then base ++ normalized else normalized)
    else if is_http base
    then base ++ (codes "/" ++ strip_leading_slashes normalized)
    else normalized

-- `raw` with a missing or null value as the empty text; `api_base_url` is the configured address.
unfoldable pub resolve_avatar_src : Text → Text → Text
unfolding is_empty strip_slashes normalize_avatar resolve_normalized
resolve_avatar_src api_base_url raw =
    if is_empty raw
    then []
    else resolve_normalized (strip_slashes api_base_url) (normalize_avatar raw)
