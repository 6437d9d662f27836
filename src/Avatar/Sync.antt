-- ===== src/Avatar/Sync.antt =====
-- apps/frontend/src/hooks/sidebar/useAvatarState.ts: the avatar of the user, its preview and its
-- cached address.
use ivena_meet.Types.{Opt, null, present, nullish, JoinResp, MessageItem}
use ivena_meet.Base.{
  ltb, if◌then◌else◌, text_eq, starts_with, trim, is_empty, Text, codes, ℕ, Bool, true, false, not,
  ◌&&◌, Option, none, some, List, [], ◌∷◌, ◌++◌,
}
use ivena_meet.World.{AvatarKind, idle_avatar, ok_avatar, error_avatar, AvatarState, World}
use ivena_meet.World.Effect.{M, ◌>>=◌, ◌>>◌, modify, catching, update_avatar, log_to, push_log}
use ivena_meet.World.Env.{Env, request}
use ivena_meet.Avatar.{load_cached_avatar, save_cached_avatar, clear_cached_avatar}
use ivena_meet.Api.Client.Endpoints.{upload_avatar}

abbrev pub set_status : AvatarKind → Text → World → World
set_status kind text = update_avatar (λ a. record a { avatar_kind = kind; avatar_text = text })

abbrev pub set_preview : Text → World → World
set_preview url = update_avatar (λ a. record a { avatar_preview = url })

-- `prev.map((m) => m.user_name === name ? { ...m, avatar_url } : m)`
unfoldable pub assign_avatar : Text → Opt Text → List MessageItem → List MessageItem
unfolding text_eq
assign_avatar name url [] = []
assign_avatar name url (m ∷ ms) =
    (if text_eq m.user_name name then record m { avatar_url = url } else m)
    ∷ assign_avatar name url ms

-- `if (avatarPreviewBlobRef.current) { URL.revokeObjectURL(…); … = ""; }`
unfoldable pub release_blob : AvatarState → AvatarState
unfolding is_empty
release_blob a =
    if is_empty a.avatar_preview_blob
    then a
    else record a { avatar_preview_blob = []; revoked = a.revoked ++ a.avatar_preview_blob ∷ [] }

-- The preview is set unless a picked file is shown.
abbrev preview_unless_blob : Text → World → World
preview_unless_blob url w = if is_empty w.avatar.avatar_preview_blob then set_preview url w else w

abbrev pub is_joined : Option JoinResp → Bool
is_joined none = false
is_joined (some j) = true

module _ (env : Env) where
  abbrev pub cached_avatar : Text → World → Text
  cached_avatar name w = load_cached_avatar env.to_lower_case name w.storage

  abbrev pub cache_avatar : Text → Text → World → World
  cache_avatar name url w = record w {
    storage = save_cached_avatar env.to_lower_case name url w.storage;
  }

  unfoldable pub sync_avatar_from_server : Text → Opt Text → World → World
  unfolding assign_avatar is_empty
  sync_avatar_from_server name avatar_url w =
      let next = trim (nullish avatar_url []) in
      let shown =
        set_status ok_avatar (codes "已同步已上传头像")
          (cache_avatar name next (preview_unless_blob next w)) in
      let bare = preview_unless_blob [] w in
      let hidden =
        set_status idle_avatar (codes "未上传，使用默认头像")
          (record bare { storage = clear_cached_avatar env.to_lower_case name bare.storage }) in
      let told = if is_empty next then hidden else shown in
      record told {
        messages = assign_avatar name (if is_empty next then null else present next) told.messages;
      }

  -- The effect on `userName`.
  unfoldable pub on_user_name : World → World
  unfolding is_empty
  on_user_name w =
      let cached = cached_avatar w.user_name w in
      if not (is_empty w.avatar.avatar_preview_blob)
      then w
      else if is_empty cached
      then set_status idle_avatar (codes "未上传，使用默认头像") (set_preview cached w)
      else set_status ok_avatar (codes "已加载本地头像缓存") (set_preview cached w)

  -- A file that is refused: the cached avatar is shown again.
  unfoldable pub refuse_file : Text → Text → World → World
  refuse_file text line w = log_to line (
      set_status error_avatar text (
        update_avatar
          (λ a. record a { avatar_preview = cached_avatar w.user_name w; avatar_upload_data = [] })
          w))

  -- `onAvatarFileChange` up to the reading of the file; the flag says whether it is read.
  -- `object_url` is the address that the platform makes for the file.
  unfoldable pub on_avatar_file : Text → ℕ → ℕ → Text → World → World × Bool
  unfolding refuse_file release_blob starts_with
  on_avatar_file file_type size max_bytes object_url w =
      if not (starts_with file_type (codes "image/"))
      then (
        refuse_file (codes "上传失败：仅支持图片，已使用默认头像")
            (codes "avatar upload failed: only image files are allowed, using default avatar") w,
        false,
      )
      else if ltb max_bytes size
      then (
        refuse_file (codes "上传失败：图片超过 2MB，已使用默认头像")
            (codes "avatar upload failed: file must be <= 2MB, using default avatar") w,
        false,
      )
      else (
        update_avatar
            (λ a. record (release_blob a) {
              avatar_preview_blob = object_url;
              avatar_preview = object_url;
            })
            w,
        true,
      )

  -- What follows an upload that worked, in this hook and in `joinRoom`.
  abbrev pub uploaded_avatar : Text → Text → World → World
  uploaded_avatar name url w =
      let stored = cache_avatar name url w in
      record (set_status ok_avatar (codes "头像上传成功") (
        update_avatar
          (λ a. record (release_blob a) { avatar_preview = url; avatar_upload_data = [] })
          stored)) { messages = assign_avatar name (present url) stored.messages }

  -- The upload of a file that was picked in the room.
  unfoldable pub upload_picked : World → Text → M (Unit {0})
  unfolding request upload_avatar release_blob assign_avatar
  upload_picked captured content =
      catching
        (do
          uploaded ←
              request env.on_upload_avatar captured
                (upload_avatar content (some captured.app_session_token))
          modify (uploaded_avatar (trim captured.user_name) uploaded.avatar_url)
          push_log (codes "avatar uploaded: " ++ uploaded.avatar_url))
        (λ e. do
          modify (set_status error_avatar (codes "头像上传失败，已使用默认头像"))
          push_log (codes "avatar upload failed: Error: " ++ e))

  -- The file as a data address, or a failure to read it; `captured` is the render that picked it.
  unfoldable pub on_file_read : World → Option Text → M (Unit {0})
  unfolding refuse_file upload_picked is_empty starts_with
  on_file_read captured none =
      modify
        (refuse_file (codes "上传失败：读取图片失败，已使用默认头像") (codes "avatar upload failed: file read error"))
  on_file_read captured (some content) =
      let later : M (Unit {0}) =
        modify (set_status ok_avatar (codes "头像已选择，加入后自动上传"))
        >> push_log (codes "avatar selected") in
      let kept : M (Unit {0}) =
        modify (update_avatar (λ a. record a { avatar_upload_data = content }))
        >> (if is_joined captured.joined && not (is_empty captured.app_session_token)
            then upload_picked captured content
            else later) in
      if starts_with content (codes "data:image/")
      then kept
      else modify (
          refuse_file (codes "上传失败：图片编码异常，已使用默认头像")
            (codes "avatar upload failed: invalid data url"))

unfoldable pub reset_avatar_transient : World → World
unfolding release_blob is_empty
reset_avatar_transient =
    update_avatar
      (λ a. release_blob (record a { avatar_upload_data = []; avatar_editor_open = false }))
