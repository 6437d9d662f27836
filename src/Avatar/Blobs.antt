-- ===== src/Avatar/Blobs.antt =====
-- useAvatarState.ts: the object addresses that the picked files are previewed by.
use ivena_meet.Base.{
  ltb, if◌then◌else◌, starts_with, is_empty, Text, codes, ℕ, not, ◌&&◌, Option, List, [], ◌∷◌, ◌++◌,
}
use ivena_meet.Types.{Opt}
use ivena_meet.World.{AvatarState, World}
use ivena_meet.World.Env.{Env}
use ivena_meet.Avatar.Sync.{
  sync_avatar_from_server, on_user_name, on_avatar_file, on_file_read, reset_avatar_transient,
}

-- What reaches the hook. A picked file comes with the address that the platform makes for it, one
-- character and the rest of it; a file is read by the handler of the render that picked it.
pub data AvatarEvent : Type 0 where
  picked : Text → ℕ → ℕ → ℕ → Text → AvatarEvent
  was_read : World → Option Text → AvatarEvent
  named : AvatarEvent
  synced : Text → Opt Text → AvatarEvent
  left : AvatarEvent

-- The addresses given back and the one in use, in the order in which they were made.
abbrev pub ledger : AvatarState → List Text
ledger a = a.revoked ++ (if is_empty a.avatar_preview_blob then [] else a.avatar_preview_blob ∷ [])

module _ (env : Env) where
  unfoldable pub avatar_step : World → AvatarEvent → World
  avatar_step w (picked file_type size max_bytes c url) =
      (on_avatar_file env file_type size max_bytes (c ∷ url) w).0
  avatar_step w (was_read captured content) = (on_file_read env captured content w).1
  avatar_step w named = on_user_name env w
  avatar_step w (synced name url) = sync_avatar_from_server env name url w
  avatar_step w left = reset_avatar_transient w

  unfoldable pub avatar_run : World → List AvatarEvent → World
  avatar_run w [] = w
  avatar_run w (e ∷ es) = avatar_run (avatar_step w e) es

  -- The addresses that an event makes: that of a picked image of at most the size allowed.
  unfoldable pub made : AvatarEvent → List Text
  made (picked file_type size max_bytes c url) =
      if starts_with file_type (codes "image/") && not (ltb max_bytes size)
      then (c ∷ url) ∷ []
      else []
  made (was_read captured content) = []
  made named = []
  made (synced name url) = []
  made left = []

  unfoldable pub all_made : List AvatarEvent → List Text
  unfolding made
  all_made [] = []
  all_made (e ∷ es) = made e ++ all_made es
