-- ===== src/Chat/State/Cursor.antt =====
-- useChatState.ts: `lastMessageIdRef`, the identifier after which the stream resumes.
use ivena_meet.Chat.Message.{normalize_message, merged, same_message, sort_messages, confirmed}
use ivena_meet.Base.{
  Bool-cases, Option-cases, length, get_elem?, get_elem?-lt, get_elem?-of_lt, get_elem?-set_self,
  get_elem?-append_last, All, ℤ, pos, negsuc, pos_part, neg_part, same, ℕ, zero, suc, ◌+◌, ◌≤◌, ◌≡◌,
  refl, sym, ap, ◌∙◌, subst, ◌⊎◌, inl, inr, Option, none, some, List, [], ◌∷◌, arith,
}
use ivena_meet.Types.{MessageItem}
use ivena_meet.Chat.Merge.{
  Merging, target_of, append_message, write_message, replace_message, merge_one, merge_all, start,
  merge_messages,
}
use ivena_meet.Chat.State.{
  ChatState, greater_id, max_id, sync_last_id, merge_and_advance, on_stream_message,
}
use ivena_meet.Chat.Merge.Position.{sort_messages-Position}
use ivena_meet.Chat.Merge.Range.{InRange, start-InRange, target_of-lt}
use ivena_meet.Chat.Merge.Retry.{merge_one-unchanged}
use ivena_meet.Chat.Merge.Equal.{same_message-eq}

abbrev pub AtMost : ℤ → MessageItem → Type 0
AtMost best m = pos_part m.id + neg_part best ≤ pos_part best + neg_part m.id

infix 50 ◌≤ℤ◌
abbrev pub ◌≤ℤ◌ : ℤ → ℤ → Type 0
a ≤ℤ b = pos_part a + neg_part b ≤ pos_part b + neg_part a

greater_id_bounds : (a b : ℤ) → (a ≤ℤ greater_id a b) × (b ≤ℤ greater_id a b)
unfolding greater_id
greater_id_bounds a b = ground arith

greater_id_cases : (a b : ℤ) → (greater_id a b ≡ a) ⊎ (greater_id a b ≡ b)
unfolding greater_id
greater_id_cases a b = ground arith

max_id-grows : (best : ℤ) (ms : List MessageItem) → best ≤ℤ max_id best ms
unfolding max_id
max_id-grows best [] = omega arith
max_id-grows best (m ∷ ms) =
    omega (arith, greater_id_bounds best m.id, max_id-grows (greater_id best m.id) ms)

max_id-bounds : (best : ℤ) (ms : List MessageItem) → All (AtMost (max_id best ms)) ms
unfolding max_id
max_id-bounds best [] = tt
max_id-bounds best (m ∷ ms) = (
  omega (arith, greater_id_bounds best m.id, max_id-grows (greater_id best m.id) ms),
  max_id-bounds (greater_id best m.id) ms,
)

abbrev pub IsIdOf : List MessageItem → ℤ → Type 0
IsIdOf ms id = (i : ℕ) × (m : MessageItem) × (get_elem? ms i ≡ some m) × (m.id ≡ id)

max_id-attained :
    (best : ℤ) (ms : List MessageItem) → (max_id best ms ≡ best) ⊎ IsIdOf ms (max_id best ms)
unfolding max_id
max_id-attained best [] = inl refl
max_id-attained best (m ∷ ms) = elim (max_id-attained (greater_id best m.id) ms) [
  | inr (i, w, at, top) ↦ inr (suc i, w, at, top)
  | inl same ↦ elim (greater_id_cases best m.id) [
    | inl old ↦ inl (same ∙ old)
    | inr new ↦ inr (0, m, refl, sym (same ∙ new))
  ]
]

not_negative : (a : ℤ) → pos 0 ≤ℤ a → neg_part a ≡ 0
not_negative (pos n) h = refl
not_negative (negsuc n) h = omega arith

-- The effect on the message list sets the cursor to the greatest identifier shown, or to 0 where
-- no message has a positive one: synthetic identifiers, which are negative, never count.
pub sync_last_id-is_max :
    (s : ChatState)
    → let t = sync_last_id s in
      All (AtMost t.last_message_id) t.messages
      × (neg_part t.last_message_id ≡ 0)
      × ((t.last_message_id ≡ pos 0) ⊎ IsIdOf t.messages t.last_message_id)
unfolding sync_last_id
sync_last_id-is_max s = (
  max_id-bounds (pos 0) s.messages,
  not_negative (max_id (pos 0) s.messages) (max_id-grows (pos 0) s.messages),
  max_id-attained (pos 0) s.messages,
)

-- Merging one message leaves its identifier in the list.
merge_one-IsIdOf :
    (s : Merging) (item : MessageItem) → InRange s → IsIdOf (merge_one s item).next item.id
unfolding merge_one append_message replace_message write_message normalize_message merged
merge_one-IsIdOf s item r = elim (Option-cases (target_of s (normalize_message item))) [
  | inl e ↦
      rw (e, merge_one)
        (
          length s.next,
          normalize_message item,
          get_elem?-append_last s.next (normalize_message item),
          refl,
        )
  | inr (i, e) ↦
      let (prev, at) = get_elem?-of_lt s.next i (target_of-lt s (normalize_message item) i r e) in
      let after = merged prev (normalize_message item) in
      elim (Bool-cases (same_message prev after)) [
        | inl kept ↦
            rw (e, merge_one, at, kept) (i, prev, at, ap (λ m. m.id) (same_message-eq _ _ kept))
        | inr other ↦
            rw (e, merge_one, at, other)
              (i, after, get_elem?-set_self s.next i after (get_elem?-lt s.next i at), refl)
      ]
]

sort-IsIdOf : (id : ℤ) (ms : List MessageItem) → IsIdOf ms id → IsIdOf (sort_messages ms) id
sort-IsIdOf id ms (i, m, at, e) =
    let (j, there) = sort_messages-Position m ms i at in (j, m, there, e)

merge_messages-IsIdOf :
    (base : List MessageItem) (item : MessageItem)
    → IsIdOf (merge_messages base (item ∷ [])) item.id
unfolding merge_messages merge_all
merge_messages-IsIdOf base item =
    let s = merge_one (start base) item in
    let w = merge_one-IsIdOf (start base) item (start-InRange base) in
    elim (Bool-cases s.changed) [
      | inl e ↦ rw e (sort-IsIdOf item.id s.next w)
      | inr e ↦ rw e (
          subst (λ (t : Merging). IsIdOf t.next item.id) (merge_one-unchanged (start base) item e)
            w)
    ]

abbrev id_or : ℤ → Option MessageItem → ℤ
id_or d none = d
id_or d (some m) = m.id

AtMost-at :
    (best : ℤ) (ms : List MessageItem) (id : ℤ) → All (AtMost best) ms → IsIdOf ms id → id ≤ℤ best
AtMost-at best [] id h (i, m, at, e) = ground (arith, at)
AtMost-at best (n ∷ ms) id h (zero, m, at, e) =
    subst (λ k. k ≤ℤ best) (ap (λ (o : Option MessageItem). id_or id o) at ∙ e) h.0
AtMost-at best (n ∷ ms) id h (suc i, m, at, e) = AtMost-at best ms id h.1 (i, m, at, e)

-- Once a message of the stream has been merged and the effect on the message list has run, the
-- cursor is not before the message's identifier, so that the stream does not send it again; it is
-- not before any identifier shown, and is one of them or 0.
pub sync_last_id-on_stream_message :
    (item : MessageItem) (s : ChatState)
    → let t = sync_last_id (on_stream_message item s) in
      (item.id ≤ℤ t.last_message_id)
      × All (AtMost t.last_message_id) t.messages
      × ((t.last_message_id ≡ pos 0) ⊎ IsIdOf t.messages t.last_message_id)
unfolding sync_last_id on_stream_message merge_and_advance confirmed
sync_last_id-on_stream_message item s =
    let shown = merge_messages s.messages (confirmed item ∷ []) in
    let all = max_id-bounds (pos 0) shown in
    (
      AtMost-at (max_id (pos 0) shown) shown item.id all
          (merge_messages-IsIdOf s.messages (confirmed item)),
      all,
      max_id-attained (pos 0) shown,
    )
