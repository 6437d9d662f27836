-- ===== src/Chat/Merge/Laws.antt =====
-- `mergeMessages` as a whole: client ids, order, size, and the place of one message.
use ivena_meet.Base.{
  Bool-cases, Option-cases, length, get_elem?, length-append, length-set, Text, suc, ◌+◌, ◌≤◌, ◌≡◌,
  refl, ◌∙◌, inl, inr, List, [], ◌∷◌, arith,
}
use ivena_meet.Types.{MessageItem}
use ivena_meet.Chat.Message.{normalize_message, merged, insert_message, sort_messages}
use ivena_meet.Chat.Order.{IsSorted, sort_messages-IsSorted}
use ivena_meet.Chat.Merge.{
  Merging, target_of, append_message, write_message, replace_message, merge_one, merge_all, start,
  merge_messages,
}
use ivena_meet.Chat.Merge.Tracking.{count_client, UniqueClients}
use ivena_meet.Chat.Merge.Unique.{Tracked-UniqueClients, start-Tracked, merge_all-Tracked}

count_client-insert :
    (c : Text) (m : MessageItem) (ms : List MessageItem)
    → count_client c (insert_message m ms) ≡ count_client c (m ∷ ms)
unfolding insert_message
count_client-insert c m [] = refl
count_client-insert c m (n ∷ ns) = ground (arith, count_client-insert c m ns)

pub count_client-sort :
    (c : Text) (ms : List MessageItem) → count_client c (sort_messages ms) ≡ count_client c ms
unfolding sort_messages
count_client-sort c [] = refl
count_client-sort c (m ∷ ms) =
    count_client-insert c m (sort_messages ms) ∙ ground (arith, count_client-sort c ms)

length-insert :
    (m : MessageItem) (ms : List MessageItem) → length (insert_message m ms) ≡ suc (length ms)
unfolding insert_message
length-insert m [] = refl
length-insert m (n ∷ ns) = ground (arith, length-insert m ns)

pub length-sort : (ms : List MessageItem) → length (sort_messages ms) ≡ length ms
unfolding sort_messages
length-sort [] = refl
length-sort (m ∷ ms) = omega (arith, length-insert m (sort_messages ms), length-sort ms)

sort-UniqueClients : (ms : List MessageItem) → UniqueClients ms → UniqueClients (sort_messages ms)
sort-UniqueClients ms u c n = omega (arith, u c n, count_client-sort c ms)

-- If no client id stands twice in the list, none does after any batch is merged, whatever its
-- messages are.
pub merge_messages-UniqueClients :
    (base incoming : List MessageItem)
    → UniqueClients base
    → UniqueClients (merge_messages base incoming)
unfolding merge_messages
merge_messages-UniqueClients base [] u = u
merge_messages-UniqueClients base (item ∷ items) u =
    let s = merge_all (start base) (item ∷ items) in
    let t = merge_all-Tracked (start base) (item ∷ items) (start-Tracked base u) in
    elim (Bool-cases s.changed) [
      | inl e ↦ rw e (sort-UniqueClients s.next (Tracked-UniqueClients s t))
      | inr e ↦ rw e u
    ]

-- A list in chronological order stays in it.
pub merge_messages-IsSorted :
    (base incoming : List MessageItem) → IsSorted base → IsSorted (merge_messages base incoming)
unfolding merge_messages
merge_messages-IsSorted base [] h = h
merge_messages-IsSorted base (item ∷ items) h =
    let s = merge_all (start base) (item ∷ items) in
    elim (Bool-cases s.changed) [ inl e ↦ rw e (sort_messages-IsSorted s.next) | inr e ↦ rw e h ]

length-merge_one :
    (s : Merging) (item : MessageItem)
    → (length s.next ≤ length (merge_one s item).next)
      × (length (merge_one s item).next ≤ length s.next + 1)
unfolding merge_one append_message replace_message write_message
length-merge_one s item = elim (Option-cases (target_of s (normalize_message item))) [
  | inl e ↦
      rw (e, merge_one) (omega (arith, length-append {0} s.next (normalize_message item ∷ [])))
  | inr (i, e) ↦ elim (Option-cases (get_elem? s.next i)) [
    | inl out ↦ rw (e, merge_one, out) (omega arith)
    | inr (prev, at) ↦
        rw (e, merge_one, at)
          (ground (arith, length-set s.next i (merged prev (normalize_message item))))
  ]
]

length-merge_all :
    (s : Merging) (items : List MessageItem)
    → (length s.next ≤ length (merge_all s items).next)
      × (length (merge_all s items).next ≤ length s.next + length items)
unfolding merge_all
length-merge_all s [] = omega arith
length-merge_all s (item ∷ items) =
    omega (arith, length-merge_one s item, length-merge_all (merge_one s item) items)

-- Merging loses no entry, and adds at most one for each incoming message.
pub length-merge_messages :
    (base incoming : List MessageItem)
    → (length base ≤ length (merge_messages base incoming))
      × (length (merge_messages base incoming) ≤ length base + length incoming)
unfolding merge_messages
length-merge_messages base [] = omega arith
length-merge_messages base (item ∷ items) =
    let s = merge_all (start base) (item ∷ items) in
    elim (Bool-cases s.changed) [
      | inl e ↦
          rw e (omega (arith, length-sort s.next, length-merge_all (start base) (item ∷ items)))
      | inr e ↦ rw e (omega arith)
    ]
