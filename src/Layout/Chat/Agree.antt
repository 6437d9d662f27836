-- ===== src/Layout/Chat/Agree.antt =====
-- Layout.tsx and useChatState.ts: both keep the list of messages, each with a function of its own.
use ivena_meet.Base.{
  if◌then◌else◌, Bool-cases, Option-cases, get_elem?, set, get_elem?-of_lt, is_empty, ℤ, eqb_ℤ,
  text_eq_instance, whole_eq, ℕ, zero, suc, ◌≡◌, refl, sym, ap, ◌∙◌, ◌≢◌, inl, inr, Option, none,
  some, List, [], ◌∷◌, arith,
}
use ivena_meet.Types.{MessageItem}
use ivena_meet.Layout.Chat.{
  sort_items, find_index, assigned, upsert_index, upsert_at, upsert_message,
}
use ivena_meet.Layout.Chat.Upsert.{UniqueIds, get-index_clients, get-index_ids}
use ivena_meet.Chat.Message.{
  normalize_message, client_of, merged, same_message, insert_message, sort_messages, has_client,
}
use ivena_meet.Chat.Order.{compare_messages_iff, IsSorted}
use ivena_meet.Chat.Merge.{
  get, Merging, index_ids, or_else, target_of, append_message, write_message, replace_message,
  merge_one, merge_all, start, merge_messages,
}
use ivena_meet.Chat.Merge.Tracking.{UniqueClients, Text-cases}
use ivena_meet.Chat.Merge.Range.{start-InRange, target_of-lt}
use ivena_meet.Chat.Merge.Equal.{same_message-eq}

or_else-none : (a : Option ℕ) → or_else a none ≡ a
or_else-none none = refl
or_else-none (some a) = refl

-- Both find the same message.
target_of-upsert_index :
    (base : List MessageItem) (item : MessageItem)
    → UniqueClients base
    → UniqueIds base
    → target_of (start base) item ≡ upsert_index base item
unfolding target_of upsert_index is_empty get
target_of-upsert_index base item u v =
    let ids = get-index_ids item.id base 0 [] (v item.id) in
    elim (Text-cases (client_of item)) [
      | inl e ↦ rw e (ids ∙ or_else-none (find_index 0 (λ m. eqb_ℤ m.id item.id) base))
      | inr n ↦
          let clients = get-index_clients (client_of item) base 0 [] n (u (client_of item) n) in
          ap
            (λ a.
              or_else (if is_empty (client_of item) then none else a)
                (get {K = ℤ} item.id (index_ids 0 base [])))
            (clients ∙ or_else-none (find_index 0 (has_client (client_of item)) base))
          ∙ ap
              (or_else (
                if is_empty (client_of item)
                then none
                else find_index 0 (has_client (client_of item)) base))
              (ids ∙ or_else-none (find_index 0 (λ m. eqb_ℤ m.id item.id) base))
    ]

-- A message with both marks.
abbrev pub IsMarked : MessageItem → Type 0
IsMarked m = (m.pending ≢ none) × (m.failed ≢ none)

normalized_lem : (item : MessageItem) → IsMarked item → normalize_message item ≡ item
unfolding normalize_message
normalized_lem item h = ground (arith, h)

merged-assigned : (prev item : MessageItem) → IsMarked item → merged prev item ≡ assigned prev item
unfolding merged assigned
merged-assigned prev item h = ground (arith, h)

insert-IsSorted_first :
    (m : MessageItem) (ms : List MessageItem) → IsSorted (m ∷ ms) → insert_message m ms ≡ m ∷ ms
unfolding insert_message
insert-IsSorted_first m [] h = refl
insert-IsSorted_first m (n ∷ ns) h = rw ((compare_messages_iff m n).1 h.0.0) refl

sort-IsSorted : (ms : List MessageItem) → IsSorted ms → sort_messages ms ≡ ms
unfolding sort_messages
sort-IsSorted [] h = refl
sort-IsSorted (m ∷ ms) h = rw (sort-IsSorted ms h.1) (insert-IsSorted_first m ms h)

set_same :
    (ms : List MessageItem) (i : ℕ) (m : MessageItem) → get_elem? ms i ≡ some m → set ms i m ≡ ms
set_same [] i m h = refl
set_same (n ∷ ns) zero m h = ground (arith, h)
set_same (n ∷ ns) (suc i) m h = ap (λ r. n ∷ r) (set_same ns i m h)

-- What is left of a merge when its loop is done.
abbrev kept : List MessageItem → Merging → List MessageItem
kept base s = if s.changed then sort_messages s.next else base

merge_messages-kept :
    (base : List MessageItem) (item : MessageItem)
    → merge_messages base (item ∷ []) ≡ kept base (merge_one (start base) item)
unfolding merge_messages merge_all
merge_messages-kept base item = refl

merge_one_new :
    (s : Merging) (item : MessageItem)
    → IsMarked item
    → target_of s item ≡ none
    → merge_one s item ≡ append_message s item
unfolding merge_one
merge_one_new s item marked e =
    let n = normalized_lem item marked in
    let t : target_of s (normalize_message item) ≡ none = rw n e in rw (t, merge_one, n) refl

merge_one_known :
    (s : Merging) (item prev : MessageItem) (i : ℕ)
    → IsMarked item
    → target_of s item ≡ some i
    → get_elem? s.next i ≡ some prev
    → merge_one s item ≡ replace_message s i prev (assigned prev item)
unfolding merge_one
merge_one_known s item prev i marked e at =
    let n = normalized_lem item marked in
    let t : target_of s (normalize_message item) ≡ some i = rw n e in
    rw (t, merge_one, at, n, merged-assigned prev item marked) refl

kept-replace_message :
    (base : List MessageItem) (prev after : MessageItem) (i : ℕ)
    → IsSorted base
    → get_elem? base i ≡ some prev
    → kept base (replace_message (start base) i prev after) ≡ sort_messages (set base i after)
unfolding replace_message write_message
kept-replace_message base prev after i sorted at = elim (Bool-cases (same_message prev after)) [
  | inl k ↦
      let e : prev ≡ after = same_message-eq prev after k in
      rw (k, ← e, set_same base i prev at, sort-IsSorted base sorted) refl
  | inr k ↦ rw k refl
]

-- A list is in chronological order, and no client id and no identifier stands in it twice. For a
-- message with both marks, the function of the layout and the one of the side bar's hook then give
-- the same list.
pub upsert_message-merge_messages :
    (base : List MessageItem) (item : MessageItem)
    → IsMarked item
    → UniqueClients base
    → UniqueIds base
    → IsSorted base
    → upsert_message base item ≡ merge_messages base (item ∷ [])
unfolding upsert_message sort_items
upsert_message-merge_messages base item marked u v sorted =
    let t = target_of-upsert_index base item u v in
    let m = merge_messages-kept base item in
    elim (Option-cases (target_of (start base) item)) [
      | inl e ↦ rw (sym t ∙ e) (
          sym (
            m
            ∙ ap (kept base) (merge_one_new (start base) item marked e)
            ∙ (unfold append_message in refl)))
      | inr (i, e) ↦
          let (prev, at) =
            get_elem?-of_lt base i (target_of-lt (start base) item i (start-InRange base) e) in
          rw (sym t ∙ e, upsert_at, at)
            (sym (
              m
              ∙ (ap (kept base) (merge_one_known (start base) item prev i marked e at)
                  ∙ kept-replace_message base prev (assigned prev item) i sorted at)))
    ]
