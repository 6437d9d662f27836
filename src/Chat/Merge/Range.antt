-- ===== src/Chat/Merge/Range.antt =====
-- `mergeMessages`: the positions in the two maps lie inside the list.
use ivena_meet.Base.{
  Bool-cases, Option-cases, length, get_elem?, set, length-append, length-set, get_elem?-lt,
  get_elem?-of_lt, is_empty, Text, ℤ, Eq, text_eq_instance, whole_eq, ℕ, suc, ◌+◌, ◌≤◌, ◌<◌, ◌≡◌,
  inl, inr, some, List, [], ◌∷◌, ◌++◌, arith,
}
use ivena_meet.Types.{MessageItem}
use ivena_meet.Chat.Message.{normalize_message, client_of, merged, same_message}
use ivena_meet.Chat.Merge.{
  get, Merging, put_client, index_ids, index_clients, target_of, append_message, write_message,
  replace_message, merge_one, merge_all, start,
}

abbrev pub IsBounded {ℓ} : {K : Type ℓ} ⦃e : Eq K⦄ → ℕ → List (K × ℕ) → Type ℓ
IsBounded {K} ⦃e⦄ n f = (k : K) (i : ℕ) → get k f ≡ some i → i < n

module _ {ℓ} {K : Type ℓ} ⦃e : Eq K⦄ where
  cons-IsBounded :
      (n : ℕ) (k : K) (i : ℕ) (f : List (K × ℕ)) → IsBounded n f → i < n → IsBounded n ((k, i) ∷ f)
  unfolding get
  cons-IsBounded n k i f b h j a g = ground (arith, b j a)

  IsBounded-mono : (m n : ℕ) (f : List (K × ℕ)) → m ≤ n → IsBounded m f → IsBounded n f
  IsBounded-mono m n f h b k i g = omega (arith, b k i g)

put_client-IsBounded :
    (n : ℕ) (c : Text) (i : ℕ) (f : List (Text × ℕ))
    → IsBounded n f
    → i < n
    → IsBounded n (put_client c i f)
unfolding put_client
put_client-IsBounded n c i f b h = elim (Bool-cases (is_empty c)) [
  | inl e ↦ rw e b
  | inr e ↦ rw e (cons-IsBounded n c i f b h)
]

index_ids-IsBounded :
    (k n : ℕ) (ms : List MessageItem) (f : List (ℤ × ℕ))
    → k + length ms ≤ n
    → IsBounded n f
    → IsBounded n (index_ids k ms f)
unfolding index_ids
index_ids-IsBounded k n [] f h b = b
index_ids-IsBounded k n (x ∷ xs) f h b =
    index_ids-IsBounded (suc k) n xs ((x.id, k) ∷ f) (omega arith)
      (cons-IsBounded n x.id k f b (omega arith))

index_clients-IsBounded :
    (k n : ℕ) (ms : List MessageItem) (f : List (Text × ℕ))
    → k + length ms ≤ n
    → IsBounded n f
    → IsBounded n (index_clients k ms f)
unfolding index_clients
index_clients-IsBounded k n [] f h b = b
index_clients-IsBounded k n (x ∷ xs) f h b =
    index_clients-IsBounded (suc k) n xs (put_client (client_of x) k f) (omega arith)
      (put_client-IsBounded n (client_of x) k f b (omega arith))

pub record InRange (s : Merging) : Type 0 where
  pub ids : IsBounded (length s.next) s.by_id
  pub clients : IsBounded (length s.next) s.by_client_id

pub start-InRange : (base : List MessageItem) → InRange (start base)
unfolding get
start-InRange base = record {
  ids = index_ids-IsBounded 0 (length base) base [] (omega arith) (λ k i h. cc);
  clients = index_clients-IsBounded 0 (length base) base [] (omega arith) (λ k i h. cc);
}

-- The position that the loop chooses is one of the list.
pub target_of-lt :
    (s : Merging) (n : MessageItem) (i : ℕ) → InRange s → target_of s n ≡ some i → i < length s.next
unfolding target_of
target_of-lt s n i r h = ground (
  arith,
  r.ids n.id i,
  r.clients (client_of n) i,
  Option-cases (get (client_of n) s.by_client_id),
)

append-InRange : (s : Merging) (n : MessageItem) → InRange s → InRange (append_message s n)
unfolding append_message
append-InRange s n r =
    let grown : length (s.next ++ n ∷ []) ≡ length s.next + 1 = length-append s.next (n ∷ []) in
    record {
      ids =
          cons-IsBounded _ n.id (length s.next) s.by_id
            (IsBounded-mono (length s.next) _ s.by_id (omega (arith, grown)) r.ids)
            (omega (arith, grown));
      clients =
          put_client-IsBounded _ (client_of n) (length s.next) s.by_client_id
            (IsBounded-mono (length s.next) _ s.by_client_id (omega (arith, grown)) r.clients)
            (omega (arith, grown));
    }

write-InRange :
    (s : Merging) (i : ℕ) (after : MessageItem)
    → InRange s
    → i < length s.next
    → InRange (write_message s i after)
unfolding write_message
write-InRange s i after r h =
    let same_size : length (set s.next i after) ≡ length s.next = length-set s.next i after in
    record {
      ids = rw same_size (cons-IsBounded _ after.id i s.by_id r.ids h);
      clients =
          rw same_size (put_client-IsBounded _ (client_of after) i s.by_client_id r.clients h);
    }

pub merge_one-InRange : (s : Merging) (item : MessageItem) → InRange s → InRange (merge_one s item)
unfolding merge_one replace_message
merge_one-InRange s item r = elim (Option-cases (target_of s (normalize_message item))) [
  | inl e ↦ rw (e, merge_one) (append-InRange s _ r)
  | inr (i, e) ↦ elim (Option-cases (get_elem? s.next i)) [
    | inl out ↦ rw (e, merge_one, out) r
    | inr (prev, at) ↦
        elim (Bool-cases (same_message prev (merged prev (normalize_message item)))) [
          | inl kept ↦ rw (e, merge_one, at, kept) r
          | inr new ↦ rw (e, merge_one, at, new) (write-InRange s i _ r (get_elem?-lt s.next i at))
        ]
  ]
]

pub merge_all-InRange :
    (s : Merging) (items : List MessageItem) → InRange s → InRange (merge_all s items)
unfolding merge_all
merge_all-InRange s [] r = r
merge_all-InRange s (item ∷ items) r =
    merge_all-InRange (merge_one s item) items (merge_one-InRange s item r)

-- After any part of a batch, the position that the loop chooses for the next message holds one.
pub target_in_range :
    (base items : List MessageItem) (n : MessageItem) (i : ℕ)
    → target_of (merge_all (start base) items) n ≡ some i
    → (m : MessageItem) × (get_elem? (merge_all (start base) items).next i ≡ some m)
target_in_range base items n i h =
    get_elem?-of_lt _ i
      (target_of-lt _ n i (merge_all-InRange (start base) items (start-InRange base)) h)
