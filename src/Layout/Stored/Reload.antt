-- ===== src/Layout/Stored/Reload.antt =====
-- Layout.tsx: what a page finds in the local storage after it was left.
use ivena_meet.Base.{
  text_eq, is_empty, Text, text_eq_refl, ◌≡◌, refl, ap, ◌∙◌, false, Option, none, some, List, [],
  ◌∷◌,
}
use ivena_meet.Types.{Role, host, member, JoinResp}
use ivena_meet.Storage.{find_item, find_item-erase_item}
use ivena_meet.Room.{joined_key, app_session_key, host_session_key}
use ivena_meet.Layout.Stored.{
  SessionText, Restores, Defaults, Kept, room_key, name_key, role_key, role_name, or_default,
  role_of, read_stored_role, parsed, mount_kept, store_room, store_name, store_role, session_stored,
  store_session, token_stored, store_app_token, store_host_token, forget_tokens, store_all,
  find_item-erase_other,
}

find-token_stored_other :
    (k l token : Text) (m : List (Text × Text))
    → text_eq l k ≡ false
    → find_item k (token_stored l token m) ≡ find_item k m
unfolding find_item is_empty
find-token_stored_other k l [] m h = find_item-erase_other k l m h
find-token_stored_other k l (c ∷ s) m h = rw h refl

find-token_stored :
    (l token : Text) (m : List (Text × Text))
    → or_default [] (find_item l (token_stored l token m)) ≡ token
unfolding find_item is_empty
find-token_stored l [] m = rw (find_item-erase_item l m) refl
find-token_stored l (c ∷ s) m = rw (text_eq_refl l) refl

module _ (t : SessionText) where
  find-session_stored_other :
      (k : Text) (j : Option JoinResp) (m : List (Text × Text))
      → text_eq joined_key k ≡ false
      → find_item k (session_stored t j m) ≡ find_item k m
  unfolding find_item
  find-session_stored_other k none m h = find_item-erase_other k joined_key m h
  find-session_stored_other k (some j) m h = rw h refl

  find-session_stored :
      (j : Option JoinResp) (m : List (Text × Text))
      → Restores t j
      → parsed t (find_item joined_key (session_stored t j m)) ≡ j
  unfolding find_item text_eq
  find-session_stored none m h = rw (find_item-erase_item joined_key m) refl
  find-session_stored (some j) m h = rw h.0 h.1

  -- Looked up after the three tokens were written, an entry of another name is as before.
  find-stored_other :
      (key : Text) (k : Kept) (m : List (Text × Text))
      → text_eq joined_key key ≡ false
      → text_eq app_session_key key ≡ false
      → text_eq host_session_key key ≡ false
      → find_item key
          (store_host_token false k (store_app_token false k (store_session t false k m)))
        ≡ find_item key m
  unfolding store_host_token store_app_token store_session
  find-stored_other key k m a b c =
      find-token_stored_other key host_session_key k.host_session_token _ c
      ∙ (find-token_stored_other key app_session_key k.app_session_token _ b
          ∙ find-session_stored_other key k.joined m a)

  role_of-role_name : (d : Role) (r : Role) → role_of d (some (role_name r)) ≡ r
  unfolding text_eq
  role_of-role_name d host = refl
  role_of-role_name d member = refl

  -- Outside the debug mode, a page that is loaded again after all effects of a render have written
  -- finds the values of that render, whatever the storage held before; a session, where there is one,
  -- must be one that is written and read again as it is.
  pub mount_kept-store_all :
      (d : Defaults) (k : Kept) (items : List (Text × Text))
      → Restores t k.joined
      → mount_kept t d false (store_all t false k items).1 ≡ k
  unfolding mount_kept store_all forget_tokens read_stored_role store_host_token store_app_token
      store_session find_item text_eq
  mount_kept-store_all d k items h =
      let base = store_role k (store_name k (store_room k items)) in
      let one = store_session t false k base in
      let two = store_app_token false k one in
      let role_read : role_of d.role (find_item role_key (store_host_token false k two)) ≡ k.role =
        ap (role_of d.role) (find-stored_other role_key k base refl refl refl)
        ∙ role_of-role_name d.role k.role in
      let name_read =
        ap (or_default d.user_name) (find-stored_other name_key k base refl refl refl) in
      let room_read =
        ap (or_default d.room_id) (find-stored_other room_key k base refl refl refl) in
      let app_read =
        ap (or_default [])
          (find-token_stored_other app_session_key host_session_key k.host_session_token two refl)
        ∙ find-token_stored app_session_key k.app_session_token one in
      let session_read =
        ap (parsed t) (
          find-token_stored_other joined_key host_session_key k.host_session_token two refl
          ∙ find-token_stored_other joined_key app_session_key k.app_session_token one refl)
        ∙ find-session_stored k.joined base h in
      λ i. record {
        host_session_token = find-token_stored host_session_key k.host_session_token two i;
        app_session_token = app_read i;
        room_id = room_read i;
        user_name = name_read i;
        role = role_read i;
        joined = session_read i;
      }
