-- ===== src/Room/Leaving.antt =====
-- useRoomState.ts: what is left of a session after leaving.
use ivena_meet.Base.{
  is_empty, Text, codes, ◌≡◌, refl, inl, inr, Bool, true, false, not, ◌&&◌, none, List, [], ◌∷◌,
  arith,
}
use ivena_meet.Storage.{Storage, find_item, erase_item, find_item-erase_item}
use ivena_meet.World.{AvatarState, World}
use ivena_meet.World.Effect.{
  Outcome, ok, thrown, M, and_then, ◌>>◌, modify, when, log_to, push_log, Outcome-cases,
}
use ivena_meet.World.Env.{Env, request}
use ivena_meet.Room.{
  joined_key, app_session_key, host_session_key, forget_stored, clear_client_world,
}
use ivena_meet.Room.Leave.{on_leave_cleanup, notify_leave, leave_world}
use ivena_meet.Avatar.Sync.{release_blob, is_joined, reset_avatar_transient}
use ivena_meet.Api.Client.Endpoints.{leave_room}

-- Erasing keeps a missing key missing.
find_item-erase_none :
    (k l : Text) (m : List (Text × Text))
    → find_item k m ≡ none
    → find_item k (erase_item l m) ≡ none
unfolding find_item erase_item
find_item-erase_none k l [] h = refl
find_item-erase_none k l ((j, v) ∷ m) h = ground (arith, find_item-erase_none k l m)

-- None of the three entries of a session lies in the local storage.
abbrev pub IsForgotten : Storage → Type 0
IsForgotten s =
    (find_item joined_key s.items ≡ none)
    × (find_item app_session_key s.items ≡ none)
    × (find_item host_session_key s.items ≡ none)

forget_stored-IsForgotten : (s : Storage) → IsForgotten (forget_stored s)
unfolding forget_stored
forget_stored-IsForgotten s =
    let one = erase_item joined_key s.items in
    let two = erase_item app_session_key one in
    (
      find_item-erase_none joined_key host_session_key two (
          find_item-erase_none joined_key app_session_key one
            (find_item-erase_item joined_key s.items)),
      find_item-erase_none app_session_key host_session_key two
          (find_item-erase_item app_session_key one),
      find_item-erase_item host_session_key two,
    )

-- The session is gone from the page and from the local storage, with what belongs to it.
abbrev pub HasLeft : World → Type 0
HasLeft w =
    (w.joined ≡ none)
    × (w.app_session_token ≡ [])
    × (w.host_session_token ≡ [])
    × (w.messages ≡ [])
    × (w.room.stream_key ≡ [])
    × (w.room.invite_items ≡ [])
    × (w.room.host_totp_code ≡ [])
    × (w.avatar.avatar_upload_data ≡ [])
    × (w.avatar.avatar_preview_blob ≡ [])
    × IsForgotten w.storage

release-cleared : (a : AvatarState) → (release_blob a).avatar_preview_blob ≡ []
unfolding release_blob is_empty
release-cleared a = ground arith

released-upload :
    (a : AvatarState) → a.avatar_upload_data ≡ [] → (release_blob a).avatar_upload_data ≡ []
unfolding release_blob is_empty
released-upload a h = ground arith

cleared-HasLeft :
    (w : World)
    → HasLeft (log_to (codes "left room") (on_leave_cleanup (clear_client_world true true w)))
unfolding on_leave_cleanup clear_client_world reset_avatar_transient forget_stored
cleared-HasLeft w =
    let bare = record w.avatar { avatar_upload_data = []; avatar_editor_open = false } in
    (
      refl,
      refl,
      refl,
      refl,
      refl,
      refl,
      refl,
      released-upload bare refl,
      release-cleared bare,
      forget_stored-IsForgotten w.storage,
    )

then_ok :
    (r : Outcome (Unit {0}) × World) (k : M (Unit {0})) → r.0 ≡ ok tt → and_then r (λ _. k) ≡ k r.1
then_ok (ok tt, v) k h = refl
then_ok (thrown e, v) k h = ground (arith, h)

when_ok : (b : Bool) (m : M (Unit {0})) (w : World) → (m w).0 ≡ ok tt → (when b m w).0 ≡ ok tt
when_ok true m w h = h
when_ok false m w h = refl

notify_leave-ok : (env : Env) (captured w : World) → (notify_leave env captured w).0 ≡ ok tt
unfolding notify_leave request
notify_leave-ok env captured w = elim (Outcome-cases (env.on_leave w.calls leave_room)) [
  | inl (res, e) ↦ rw e refl
  | inr (t, e) ↦ rw e refl
]

pub leave_world-HasLeft :
    (env : Env) (captured w : World)
    → ((leave_world env captured w).0 ≡ ok tt) × HasLeft (leave_world env captured w).1
unfolding leave_world
leave_world-HasLeft env captured w =
    let shown =
      when (is_joined captured.joined && not (is_empty captured.app_session_token))
        (notify_leave env captured) w in
    let fine : shown.0 ≡ ok tt =
      when_ok _ (notify_leave env captured) w (notify_leave-ok env captured w) in
    let k : M (Unit {0}) =
      modify (clear_client_world true true)
      >> (modify on_leave_cleanup >> push_log (codes "left room")) in
    rw (then_ok shown k fine) (refl, cleared-HasLeft shown.1)
