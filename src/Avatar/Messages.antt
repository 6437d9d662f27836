-- ===== src/Avatar/Messages.antt =====
-- useAvatarState.ts: the effect that finds the user's avatar in the messages.
use ivena_meet.Base.{
  if◌then◌else◌, text_eq, trim, is_empty, Text, codes, text_eq_iff, ◌≡◌, false, not, ◌&&◌, Option,
  none, some, List, [], ◌∷◌, arith,
}
use ivena_meet.Types.{nullish, MessageItem}
use ivena_meet.World.{ok_avatar, World}
use ivena_meet.World.Env.{Env}
use ivena_meet.Avatar.Sync.{set_status, set_preview, is_joined, cache_avatar}

abbrev or_address : Option Text → Option Text → Option Text
or_address none b = b
or_address (some a) b = some a

-- `[...messages].reverse().find(…)?.avatar_url`
unfoldable pub latest_avatar : Text → List MessageItem → Option Text
unfolding text_eq is_empty
latest_avatar name [] = none
latest_avatar name (m ∷ ms) = or_address (latest_avatar name ms) (
    if text_eq m.user_name name && not (is_empty (nullish m.avatar_url []))
    then some (nullish m.avatar_url [])
    else none)

-- The effect on `joined`.
unfoldable pub close_avatar_editor : World → World
close_avatar_editor w =
    if is_joined w.joined
    then w
    else record w { avatar = record w.avatar { avatar_editor_open = false } }

module _ (env : Env) where
  abbrev shown_latest : Text → World → World
  shown_latest url w =
      if is_empty w.avatar.avatar_preview_blob && not (text_eq w.avatar.avatar_preview url)
      then set_status ok_avatar (codes "已同步已上传头像") (set_preview url w)
      else w

  -- The effect on `messages`.
  unfoldable pub sync_from_messages : World → World
  unfolding latest_avatar is_empty text_eq
  sync_from_messages w =
      let name = trim w.user_name in
      if is_empty name then w else elim (latest_avatar name w.messages) [
        | none ↦ w
        | some url ↦ shown_latest url (cache_avatar env name url w)
      ]

  shown_latest_lem :
      (url : Text) (w : World)
      → w.avatar.avatar_preview_blob ≡ []
      → (shown_latest url w).avatar.avatar_preview ≡ url
  unfolding is_empty
  shown_latest_lem url w h = ground (arith, h, text_eq_iff w.avatar.avatar_preview url)

  -- While no picked file is shown, the preview is then the newest address under the user's name.
  pub sync_from_messages-preview :
      (w : World) (url : Text)
      → is_empty (trim w.user_name) ≡ false
      → w.avatar.avatar_preview_blob ≡ []
      → latest_avatar (trim w.user_name) w.messages ≡ some url
      → (sync_from_messages w).avatar.avatar_preview ≡ url
  unfolding sync_from_messages
  sync_from_messages-preview w url named bare found =
      rw (named, found) (shown_latest_lem url (cache_avatar env (trim w.user_name) url w) bare)
