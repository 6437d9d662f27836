-- ===== src/Chat/Order.antt =====
-- useChatState.ts: the order of the chat list, and `sort` under its comparator.
use mathlib.Core.List.{Perm}
use mathlib.Core.List.Perm
use ivena_meet.Base.{
  Bool-cases, All, pos, pos_part, neg_part, ◌-ℤ◌, ltb_ℤ, eqb_ℤ, ◌<ℤ◌, ◌+◌, ◌≤◌, ◌<◌, ◌≡◌, ◌↔◌, ◌⊎◌,
  inl, inr, false, List, [], ◌∷◌, arith,
}
use ivena_meet.Types.{MessageItem}
use ivena_meet.Chat.Message.{compare_messages, insert_message, sort_messages}

-- The chronological order: by time, then by identifier.
abbrev pub NotAfter : MessageItem → MessageItem → Type 0
NotAfter a b =
    (a.created_at < b.created_at)
    ⊎ ((a.created_at ≡ b.created_at)
        × (pos_part a.id + neg_part b.id ≤ pos_part b.id + neg_part a.id))

-- One message comes before another: earlier, or at the same time with a smaller identifier.
abbrev pub Before : MessageItem → MessageItem → Type 0
Before a b = (a.created_at < b.created_at) ⊎ ((a.created_at ≡ b.created_at) × (a.id <ℤ b.id))

-- The sign of the comparator, with its special cases for synthetic identifiers, is that of the order
-- by time, then by identifier: it is negative exactly where the first message comes before the
-- second, positive exactly where the second comes before the first, and 0 exactly where time and
-- identifier are equal.
pub compare_messages_lem :
    (a b : MessageItem)
    → let c = compare_messages a b in
      ((c <ℤ pos 0) ↔ Before a b)
      × ((pos 0 <ℤ c) ↔ Before b a)
      × ((c ≡ pos 0) ↔ ((a.created_at ≡ b.created_at) × (a.id ≡ b.id)))
unfolding compare_messages ◌-ℤ◌ eqb_ℤ
compare_messages_lem a b = (
  ((λ h. ground arith), λ h. ground arith),
  ((λ h. ground arith), λ h. ground arith),
  ((λ h. ground arith), λ h. ground arith),
)

pub compare_messages_iff :
    (a b : MessageItem) → (ltb_ℤ (pos 0) (compare_messages a b) ≡ false) ↔ NotAfter a b
unfolding compare_messages ◌-ℤ◌ eqb_ℤ
compare_messages_iff a b = (λ h. ground arith, λ h. ground arith)

abbrev pub IsSorted : List MessageItem → Type 0
IsSorted [] = Unit
IsSorted (m ∷ ms) = All (NotAfter m) ms × IsSorted ms

NotAfter-trans : (a b c : MessageItem) → NotAfter a b → NotAfter b c → NotAfter a c
NotAfter-trans a b c p q = ground arith

NotAfter-total : (a b : MessageItem) → NotAfter a b ⊎ NotAfter b a
NotAfter-total a b = ground arith

All-NotAfter :
    (a b : MessageItem) (ms : List MessageItem)
    → NotAfter a b
    → All (NotAfter b) ms
    → All (NotAfter a) ms
All-NotAfter a b [] p h = tt
All-NotAfter a b (m ∷ ms) p h = (NotAfter-trans a b m p h.0, All-NotAfter a b ms p h.1)

All-insert_message :
    (a m : MessageItem) (ms : List MessageItem)
    → NotAfter a m
    → All (NotAfter a) ms
    → All (NotAfter a) (insert_message m ms)
unfolding insert_message
All-insert_message a m [] p h = (p, tt)
All-insert_message a m (n ∷ ns) p h = ground (arith, All-insert_message a m ns p h.1)

insert_message-IsSorted :
    (m : MessageItem) (ms : List MessageItem) → IsSorted ms → IsSorted (insert_message m ms)
unfolding insert_message
insert_message-IsSorted m [] h = (tt, tt)
insert_message-IsSorted m (n ∷ ns) h = elim (Bool-cases (ltb_ℤ (pos 0) (compare_messages m n))) [
  | inl after ↦
      let p : NotAfter n m = ground (arith, after, compare_messages_iff m n, NotAfter-total n m) in
      rw after (All-insert_message n m ns p h.0, insert_message-IsSorted m ns h.1)
  | inr before ↦
      let p : NotAfter m n = (compare_messages_iff m n).0 before in
      rw before ((p, All-NotAfter m n ns p h.0), h)
]

-- The sorted list is in chronological order.
pub sort_messages-IsSorted : (ms : List MessageItem) → IsSorted (sort_messages ms)
unfolding sort_messages
sort_messages-IsSorted [] = tt
sort_messages-IsSorted (m ∷ ms) = insert_message-IsSorted m _ (sort_messages-IsSorted ms)

insert_message-perm :
    (m : MessageItem) (ms : List MessageItem) → Perm (insert_message m ms) (m ∷ ms)
unfolding insert_message
insert_message-perm m [] = Perm.refl (m ∷ [])
insert_message-perm m (n ∷ ns) = elim (Bool-cases (ltb_ℤ (pos 0) (compare_messages m n))) [
  | inl after ↦ rw after (Perm.trans (Perm.cons n (insert_message-perm m ns)) (Perm.swap m n ns))
  | inr before ↦ rw before (Perm.refl (m ∷ n ∷ ns))
]

-- Sorting loses no message and makes none up.
pub sort_messages-perm : (ms : List MessageItem) → Perm (sort_messages ms) ms
unfolding sort_messages
sort_messages-perm [] = Perm.refl []
sort_messages-perm (m ∷ ms) =
    Perm.trans (insert_message-perm m (sort_messages ms)) (Perm.cons m (sort_messages-perm ms))
