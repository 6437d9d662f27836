-- ===== src/Chat/Merge/Unique.antt =====
-- `mergeMessages` never shows one client message twice.
use ivena_meet.Base.{
  Bool-cases, Option-cases, length, get_elem?, get_elem?-lt, get_elem?-set_self, get_elem?-set_ne,
  get_elem?-append_last, get_elem?-append_cases, is_empty, Text, text_eq_iff, text_eq_refl,
  text_eq_instance, whole_eq, ℕ, ◌≡◌, sym, ap, ◌∙◌, ◌≢◌, ◌⊎◌, inl, inr, none, some, List, [], ◌∷◌,
  arith, ℕ_discrete,
}
use ivena_meet.Types.{Opt-cases, MessageItem}
use ivena_meet.Chat.Message.{normalize_message, client_of, merged, same_message}
use ivena_meet.Chat.Merge.{
  get, Merging, put_client, target_of, append_message, write_message, replace_message, merge_one,
  merge_all, start,
}
use ivena_meet.Chat.Merge.Tracking.{
  UniqueClients, Tracks-UniqueClients, get-put_client, put_client_empty, Text-cases,
  index_clients-Tracks,
}

-- The map leads from each client id to the position of its message.
abbrev pub Tracked : Merging → Type 0
Tracked s =
    (i : ℕ) (m : MessageItem)
    → get_elem? s.next i ≡ some m
    → client_of m ≢ []
    → get (client_of m) s.by_client_id ≡ some i

pub Tracked-UniqueClients : (s : Merging) → Tracked s → UniqueClients s.next
Tracked-UniqueClients s t =
    Tracks-UniqueClients s.by_client_id 0 s.next λ i m h n. t i m h n ∙ ap some (omega arith)

pub start-Tracked : (base : List MessageItem) → UniqueClients base → Tracked (start base)
start-Tracked base u i m h n = index_clients-Tracks 0 base [] u i m h n ∙ ap some (omega arith)

-- A write of position `j` for `c` leaves the entry of another client id alone.
put_client_other :
    (c d : Text) (i j : ℕ) (f : List (Text × ℕ))
    → get c f ≡ some i
    → i ≢ j
    → (d ≢ [] → (get d f ≡ some j) ⊎ (get d f ≡ none))
    → get c (put_client d j f) ≡ some i
put_client_other c d i j f h ne old = elim (Text-cases d) [
  | inl e ↦ rw (e, put_client_empty j f) h
  | inr n ↦ ground (arith, get-put_client c d j f n, text_eq_iff d c, old n)
]

put_client_self :
    (c : Text) (i : ℕ) (f : List (Text × ℕ)) → c ≢ [] → get c (put_client c i f) ≡ some i
put_client_self c i f n = rw (get-put_client c c i f n, text_eq_refl c)

-- The client id of a message with no place in the list is not in the map.
target_none :
    (s : Merging) (n : MessageItem)
    → target_of s n ≡ none
    → client_of n ≢ []
    → get (client_of n) s.by_client_id ≡ none
unfolding target_of is_empty
target_none s n h ne = ground (arith, Text-cases (client_of n))

append-Tracked :
    (s : Merging) (n : MessageItem)
    → Tracked s
    → target_of s n ≡ none
    → Tracked (append_message s n)
unfolding append_message
append-Tracked s n t free i m h ne = elim (ℕ_discrete i (length s.next)) [
  | yes last ↦
      let e : n ≡ m = ground (arith, get_elem?-append_last s.next n, last) in
      rw (← e, ← last) (put_client_self (client_of n) i s.by_client_id (rw e ne))
  | no earlier ↦
      put_client_other (client_of m) (client_of n) i (length s.next) s.by_client_id
        (t i m (get_elem?-append_cases s.next n i h earlier) ne) earlier
        (λ c. inr (target_none s n free c))
]

-- The client id that a merged message carries leads to its position, or nowhere yet.
merged_client :
    (s : Merging) (n prev : MessageItem) (i : ℕ)
    → Tracked s
    → target_of s n ≡ some i
    → get_elem? s.next i ≡ some prev
    → client_of (merged prev n) ≢ []
    → (get (client_of (merged prev n)) s.by_client_id ≡ some i)
      ⊎ (get (client_of (merged prev n)) s.by_client_id ≡ none)
unfolding target_of merged is_empty
merged_client s n prev i t h at ne = elim (Opt-cases n.client_id) [
  | inl e ↦ ground (arith, t i prev at, e)
  | inr (inl e) ↦ ground (arith, e)
  | inr (inr (c, e)) ↦ ground (arith, e, Text-cases c, Option-cases (get c s.by_client_id))
]

written-Tracked :
    (s : Merging) (n prev : MessageItem) (i : ℕ)
    → Tracked s
    → target_of s n ≡ some i
    → get_elem? s.next i ≡ some prev
    → Tracked (write_message s i (merged prev n))
unfolding write_message
written-Tracked s n prev i t h at j m k ne = elim (ℕ_discrete j i) [
  | yes here ↦
      let e : merged prev n ≡ m =
        ground (
          arith,
          get_elem?-set_self s.next i (merged prev n) (get_elem?-lt s.next i at),
          here,
          k,
        ) in
      rw (← e, here) (put_client_self (client_of (merged prev n)) i s.by_client_id (rw e ne))
  | no there ↦
      put_client_other (client_of m) (client_of (merged prev n)) j i s.by_client_id
        (t j m (sym (get_elem?-set_ne s.next i j (merged prev n) (λ e. there (sym e))) ∙ k) ne)
        there (merged_client s n prev i t h at)
]

replace-Tracked :
    (s : Merging) (n prev : MessageItem) (i : ℕ)
    → Tracked s
    → target_of s n ≡ some i
    → get_elem? s.next i ≡ some prev
    → Tracked (replace_message s i prev (merged prev n))
unfolding replace_message
replace-Tracked s n prev i t h at = elim (Bool-cases (same_message prev (merged prev n))) [
  | inl e ↦ rw e t
  | inr e ↦ rw e (written-Tracked s n prev i t h at)
]

pub merge_one-Tracked : (s : Merging) (item : MessageItem) → Tracked s → Tracked (merge_one s item)
unfolding merge_one
merge_one-Tracked s item t = elim (Option-cases (target_of s (normalize_message item))) [
  | inl e ↦ rw (e, merge_one) (append-Tracked s _ t e)
  | inr (i, e) ↦ elim (Option-cases (get_elem? s.next i)) [
    | inl out ↦ rw (e, merge_one, out) t
    | inr (prev, at) ↦ rw (e, merge_one, at) (replace-Tracked s _ prev i t e at)
  ]
]

pub merge_all-Tracked :
    (s : Merging) (items : List MessageItem) → Tracked s → Tracked (merge_all s items)
unfolding merge_all
merge_all-Tracked s [] t = t
merge_all-Tracked s (item ∷ items) t =
    merge_all-Tracked (merge_one s item) items (merge_one-Tracked s item t)
