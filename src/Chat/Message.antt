-- ===== src/Chat/Message.antt =====
-- useChatState.ts: one message, its normal form, its order in the list, and marks on it.
use ivena_meet.Base.{
  ◌==◌, if◌then◌else◌, Text, ℤ, pos, negsuc, sub_ℕ, ◌-ℤ◌, ltb_ℤ, eqb_ℤ, same, nat_eq,
  text_eq_instance, whole_eq, bool_eq, option_eq, ℕ, Bool, true, false, not, ◌&&◌, Option, none,
  some, List, [], ◌∷◌, map,
}
use ivena_meet.Types.{
  Opt, absent, null, present, nullish, spread, role_eq_instance, opt_eq, MessageItem,
  RealtimeChatPayload,
}

abbrev pub or_false : Option Bool → Bool
or_false none = false
or_false (some b) = b

unfoldable pub normalize_message : MessageItem → MessageItem
normalize_message message = record message {
  pending = some (or_false message.pending);
  failed = some (or_false message.failed);
}

-- `client_id ?? ""`
abbrev pub client_of : MessageItem → Text
client_of m = nullish m.client_id []

-- `{ ...prev, ...normalized, pending, failed }`
unfoldable pub merged : MessageItem → MessageItem → MessageItem
merged prev normalized = record normalized {
  avatar_url = spread prev.avatar_url normalized.avatar_url;
  client_id = spread prev.client_id normalized.client_id;
  pending = some (or_false normalized.pending);
  failed = some (or_false normalized.failed);
}

unfoldable pub same_sender : MessageItem → MessageItem → Bool
same_sender a b =
    same a.id b.id
    && same a.room_id b.room_id
    && same a.user_name b.user_name
    && same a.nickname b.nickname
    && same a.role b.role

unfoldable pub same_content : MessageItem → MessageItem → Bool
same_content a b =
    same a.avatar_url b.avatar_url && same a.client_id b.client_id && same a.text b.text

unfoldable pub same_marks : MessageItem → MessageItem → Bool
same_marks a b =
    same a.created_at b.created_at && same a.pending b.pending && same a.failed b.failed

-- `JSON.stringify(a) === JSON.stringify(b)`, where `b` has the keys of `a` in the order of `a`,
-- and perhaps more: every field agrees.
unfoldable pub same_message : MessageItem → MessageItem → Bool
unfolding same_sender same_content same_marks
same_message a b = same_sender a b && (same_content a b && same_marks a b)

-- The comparator that `mergeMessages` hands to `sort`.
unfoldable pub compare_messages : MessageItem → MessageItem → ℤ
compare_messages a b =
    if not (a.created_at == b.created_at)
    then sub_ℕ a.created_at b.created_at
    else if eqb_ℤ a.id b.id
    then pos 0
    else if ltb_ℤ a.id (pos 0) && ltb_ℤ (pos 0) b.id
    then negsuc 0
    else if ltb_ℤ (pos 0) a.id && ltb_ℤ b.id (pos 0)
    then pos 1
    else a.id -ℤ b.id

-- `sort` is stable: an item goes before the first that the comparator does not put before it.
unfoldable pub insert_message : MessageItem → List MessageItem → List MessageItem
insert_message m [] = m ∷ []
insert_message m (n ∷ ns) =
    let further = insert_message m ns in
    if ltb_ℤ (pos 0) (compare_messages m n) then n ∷ further else m ∷ n ∷ ns

unfoldable pub sort_messages : List MessageItem → List MessageItem
unfolding insert_message
sort_messages [] = []
sort_messages (m ∷ ms) = insert_message m (sort_messages ms)

-- `m.client_id === clientId`
unfoldable pub has_client : Text → MessageItem → Bool
has_client c m = same m.client_id (present c)

-- The mapped list; where nothing matched it is equal to `base`, which the source then returns.
unfoldable pub mark_message_failed : List MessageItem → Text → List MessageItem
unfolding has_client
mark_message_failed base c =
    map (λ m. if has_client c m then record m { pending = some false; failed = some true } else m)
      base

-- `syntheticId` is minus a number of microseconds that the caller reads off the clock.
unfoldable pub to_realtime_message : ℕ → RealtimeChatPayload → MessageItem
to_realtime_message micros payload = record {
  id = pos 0 -ℤ pos micros;
  room_id = payload.room_id;
  user_name = payload.user_name;
  nickname = payload.nickname;
  avatar_url = null_if_absent payload.avatar_url;
  role = payload.role;
  client_id = present payload.client_id;
  text = payload.text;
  created_at = payload.created_at;
  pending = some true;
  failed = some false;
}
  where
    null_if_absent : Opt Text → Opt Text
    null_if_absent absent = null
    null_if_absent null = null
    null_if_absent (present a) = present a

-- `{ ...item, pending: false, failed: false }`
unfoldable pub confirmed : MessageItem → MessageItem
confirmed item = record item { pending = some false; failed = some false }
