-- ===== src/Layout/Stored.antt =====
-- Layout.tsx: what it keeps in the local storage, and what it reads there when the page is loaded.
-- The storage takes what is written; the defaults come from the build.
pub mod Reload
use ivena_meet.Base.{
  if◌then◌else◌, text_eq, trim, is_empty, Text, codes, text_eq_iff, ◌≡◌, refl, Bool, true, false,
  not, ◌&&◌, ◌||◌, Option, none, some, List, [], ◌∷◌, arith,
}
use ivena_meet.Types.{Role, host, member, role_eq, null, JoinResp}
use ivena_meet.Storage.{find_item, erase_item}
use ivena_meet.Room.{joined_key, app_session_key, host_session_key}

-- `JSON.stringify` and `JSON.parse` of a session, which the platform does.
pub record SessionText : Type 0 where
  pub write : JoinResp → Text
  pub read : Text → Option JoinResp

-- A session is written as a text that is not empty and that is read as the session again.
abbrev pub Restores : SessionText → Option JoinResp → Type 0
Restores t none = Unit
Restores t (some j) = (is_empty (t.write j) ≡ false) × (t.read (t.write j) ≡ some j)

pub record Defaults : Type 0 where
  pub room_id : Text
  pub user_name : Text
  pub role : Role

pub record Kept : Type 0 where
  pub host_session_token : Text
  pub app_session_token : Text
  pub room_id : Text
  pub user_name : Text
  pub role : Role
  pub joined : Option JoinResp

abbrev pub room_key : Text
room_key = codes "ivena.meet.room_id"

abbrev pub name_key : Text
name_key = codes "ivena.meet.user_name"

abbrev pub role_key : Text
role_key = codes "ivena.meet.role"

abbrev pub role_name : Role → Text
role_name host = codes "host"
role_name member = codes "member"

-- `value ?? d`
abbrev pub or_default : Text → Option Text → Text
or_default d none = d
or_default d (some v) = v

abbrev pub role_of : Role → Option Text → Role
role_of d none = d
role_of d (some raw) =
    if text_eq raw (codes "host") then host else if text_eq raw (codes "member") then member else d

unfoldable pub read_stored_role : Defaults → List (Text × Text) → Role
unfolding find_item text_eq
read_stored_role d items = role_of d.role (find_item role_key items)

unfoldable pub create_debug_joined : Text → Role → JoinResp
create_debug_joined user_name role = record {
  lk_url = codes "wss://debug.invalid";
  token = codes "debug-livekit-token";
  expires_in_seconds = 3600;
  role = role;
  camera_allowed = true;
  screen_share_allowed = true;
  camera_expires_at = null;
  screen_share_expires_at = null;
  nickname = user_name;
  avatar_url = null;
  app_session_token = [];
  app_session_expires_in_seconds = 3600;
  host_session_token = none;
  host_session_expires_in_seconds = none;
}

abbrev pub parsed : SessionText → Option Text → Option JoinResp
parsed t none = none
parsed t (some raw) = if is_empty raw then none else t.read raw

-- The first render.
unfoldable pub mount_kept : SessionText → Defaults → Bool → List (Text × Text) → Kept
unfolding find_item read_stored_role create_debug_joined is_empty text_eq
mount_kept t d debug items =
    let name = or_default d.user_name (find_item name_key items) in
    record {
      host_session_token = if debug then [] else or_default [] (find_item host_session_key items);
      app_session_token = if debug then [] else or_default [] (find_item app_session_key items);
      room_id = or_default d.room_id (find_item room_key items);
      user_name = name;
      role = read_stored_role d items;
      joined =
          if debug
          then some (create_debug_joined name (read_stored_role d items))
          else parsed t (find_item joined_key items);
    }

abbrev pub put : Text → Text → List (Text × Text) → List (Text × Text)
put k v items = (k, v) ∷ items

-- The effects that write, one for each value.
abbrev pub store_room : Kept → List (Text × Text) → List (Text × Text)
store_room k items = put room_key k.room_id items

abbrev pub store_name : Kept → List (Text × Text) → List (Text × Text)
store_name k items = put name_key k.user_name items

abbrev pub store_role : Kept → List (Text × Text) → List (Text × Text)
store_role k items = put role_key (role_name k.role) items

abbrev pub session_stored : SessionText → Option JoinResp → List (Text × Text) → List (Text × Text)
session_stored t none items = erase_item joined_key items
session_stored t (some j) items = put joined_key (t.write j) items

unfoldable pub store_session : SessionText → Bool → Kept → List (Text × Text) → List (Text × Text)
unfolding erase_item
store_session t debug k items = if debug then items else session_stored t k.joined items

abbrev pub token_stored : Text → Text → List (Text × Text) → List (Text × Text)
token_stored key token items = if is_empty token then erase_item key items else put key token items

unfoldable pub store_app_token : Bool → Kept → List (Text × Text) → List (Text × Text)
unfolding erase_item is_empty
store_app_token debug k items =
    if debug then items else token_stored app_session_key k.app_session_token items

unfoldable pub store_host_token : Bool → Kept → List (Text × Text) → List (Text × Text)
unfolding erase_item is_empty
store_host_token debug k items =
    if debug then items else token_stored host_session_key k.host_session_token items

-- The effect of the debug mode.
unfoldable pub forget_tokens : Bool → Kept → List (Text × Text) → Kept × List (Text × Text)
unfolding erase_item
forget_tokens debug k items =
    if debug
    then (
      record k { app_session_token = []; host_session_token = [] },
      erase_item host_session_key (erase_item app_session_key (erase_item joined_key items)),
    )
    else (k, items)

abbrev keeps_session : Text → Role → JoinResp → Bool
keeps_session name role j = text_eq j.nickname name && role_eq j.role role

abbrev debug_session : Text → Role → Option JoinResp → Option JoinResp
debug_session name role none = some (create_debug_joined name role)
debug_session name role (some j) =
    if keeps_session name role j then some j else some (create_debug_joined name role)

-- The effect that gives the debug mode its session.
unfoldable pub keep_debug_session : Defaults → Bool → Kept → Kept
unfolding create_debug_joined is_empty text_eq
keep_debug_session d debug k =
    let name = trim k.user_name in
    let safe = if is_empty name then d.user_name else name in
    if debug then record k { joined = debug_session safe k.role k.joined } else k

pub record DebugFlags : Type 0 where
  pub debug_mobile_mode : Bool
  pub disable_livekit_in_debug : Bool

abbrev has_value : Text → Option Text → Bool
has_value v none = false
has_value v (some t) = text_eq t v

-- `readDebugFlags` in a browser, with the values of `debug` and `livekit` in the page's address.
unfoldable pub read_debug_flags : Bool → Bool → Option Text → Option Text → DebugFlags
unfolding text_eq
read_debug_flags dev_auth_bypass dev_disable_livekit debug livekit =
    let mobile = has_value (codes "mobile") debug in
    if not dev_auth_bypass
    then record { debug_mobile_mode = false; disable_livekit_in_debug = false }
    else record {
      debug_mobile_mode = mobile;
      disable_livekit_in_debug = mobile && (dev_disable_livekit || has_value (codes "off") livekit);
    }

-- All effects of one render, in their order.
unfoldable pub store_all :
    SessionText → Bool → Kept → List (Text × Text) → Kept × List (Text × Text)
unfolding store_session store_app_token store_host_token forget_tokens
store_all t debug k items = forget_tokens debug k (
    store_host_token debug k (
      store_app_token debug k
        (store_session t debug k (store_role k (store_name k (store_room k items))))))

pub find_item-erase_other :
    (k l : Text) (m : List (Text × Text))
    → text_eq l k ≡ false
    → find_item k (erase_item l m) ≡ find_item k m
unfolding find_item erase_item
find_item-erase_other k l [] h = refl
find_item-erase_other k l ((j, v) ∷ m) h =
    ground
      (arith, h, find_item-erase_other k l m h, text_eq_iff j l, text_eq_iff j k, text_eq_iff l k)
