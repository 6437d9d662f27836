-- ===== src/Chat/Merge.antt =====
-- useChatState.ts: `mergeMessages`, which adds a batch of messages to the list. The two `Map`s are
-- association lists, the latest entry first.
pub mod Tracking
pub mod Range
pub mod Unique
pub mod Laws
pub mod Equal
pub mod Position
pub mod Retry
use ivena_meet.Base.{
  if◌then◌else◌, length, get_elem?, set, is_empty, Text, ℤ, Eq, same, text_eq_instance, whole_eq, ℕ,
  suc, Bool, true, false, Option, none, some, List, [], ◌∷◌, ◌++◌,
}
use ivena_meet.Types.{MessageItem}
use ivena_meet.Chat.Message.{normalize_message, client_of, merged, same_message, sort_messages}

module _ {ℓ} {K : Type ℓ} ⦃e : Eq K⦄ where
  unfoldable pub get : K → List (K × ℕ) → Option ℕ
  get k [] = none
  get k ((j, i) ∷ m) = if same j k then some i else get k m

pub record Merging : Type 0 where
  pub next : List MessageItem
  pub by_id : List (ℤ × ℕ)
  pub by_client_id : List (Text × ℕ)
  pub changed : Bool

-- `if (clientId) byClientId.set(clientId, i)`
unfoldable pub put_client : Text → ℕ → List (Text × ℕ) → List (Text × ℕ)
put_client c i m = if is_empty c then m else (c, i) ∷ m

-- The loop that indexes `base`, from position `i`.
unfoldable pub index_ids : ℕ → List MessageItem → List (ℤ × ℕ) → List (ℤ × ℕ)
index_ids i [] m = m
index_ids i (x ∷ xs) m = index_ids (suc i) xs ((x.id, i) ∷ m)

unfoldable pub index_clients : ℕ → List MessageItem → List (Text × ℕ) → List (Text × ℕ)
unfolding put_client
index_clients i [] m = m
index_clients i (x ∷ xs) m = index_clients (suc i) xs (put_client (client_of x) i m)

-- `a ?? b`
abbrev pub or_else {ℓ} : {A : Type ℓ} → Option A → Option A → Option A
or_else none b = b
or_else (some a) b = some a

unfoldable pub target_of : Merging → MessageItem → Option ℕ
target_of s normalized =
    or_else
      (if is_empty (client_of normalized) then none else get (client_of normalized) s.by_client_id)
      (get normalized.id s.by_id)

unfoldable pub append_message : Merging → MessageItem → Merging
append_message s normalized = record {
  next = s.next ++ normalized ∷ [];
  by_id = (normalized.id, length s.next) ∷ s.by_id;
  by_client_id = put_client (client_of normalized) (length s.next) s.by_client_id;
  changed = true;
}

unfoldable pub write_message : Merging → ℕ → MessageItem → Merging
write_message s i after = record {
  next = set s.next i after;
  by_id = (after.id, i) ∷ s.by_id;
  by_client_id = put_client (client_of after) i s.by_client_id;
  changed = true;
}

unfoldable pub replace_message : Merging → ℕ → MessageItem → MessageItem → Merging
unfolding write_message
replace_message s i prev after = if same_message prev after then s else write_message s i after

-- One round of the loop over `incoming`. A target always lies inside `next`.
unfoldable pub merge_one : Merging → MessageItem → Merging
merge_one s item =
    let normalized = normalize_message item in
    elim (target_of s normalized) [
      | none ↦ append_message s normalized
      | some i ↦ elim (get_elem? s.next i) [
        | none ↦ s
        | some prev ↦ replace_message s i prev (merged prev normalized)
      ]
    ]

unfoldable pub merge_all : Merging → List MessageItem → Merging
merge_all s [] = s
merge_all s (item ∷ items) = merge_all (merge_one s item) items

abbrev pub start : List MessageItem → Merging
start base = record {
  next = base;
  by_id = index_ids 0 base [];
  by_client_id = index_clients 0 base [];
  changed = false;
}

unfoldable pub merge_messages : List MessageItem → List MessageItem → List MessageItem
unfolding merge_one merge_all target_of append_message replace_message index_ids index_clients get
merge_messages base [] = base
merge_messages base (item ∷ items) =
    let s = merge_all (start base) (item ∷ items) in
    if s.changed then sort_messages s.next else base
