-- ===== src/Chat/Merge/Position.antt =====
-- Where a message stands in a list, before and after the list is sorted.
use ivena_meet.Base.{
  if◌then◌else◌, Bool-cases, get_elem?, text_eq, Text, text_eq_refl, pos, ltb_ℤ, ℕ, zero, suc, ◌≤◌,
  ◌≡◌, refl, ◌∙◌, ◌≢◌, inl, inr, Option, none, some, List, [], ◌∷◌, arith,
}
use ivena_meet.Types.{MessageItem}
use ivena_meet.Chat.Message.{client_of, compare_messages, insert_message, sort_messages}
use ivena_meet.Chat.Merge.Tracking.{count_client, UniqueClients, UniqueClients-tail}

-- The first message with the client id `c`.
abbrev pub find_client : Text → List MessageItem → Option MessageItem
find_client c [] = none
find_client c (m ∷ ms) = if text_eq (client_of m) c then some m else find_client c ms

abbrev pub Position : List MessageItem → MessageItem → Type 0
Position ms w = (j : ℕ) × (get_elem? ms j ≡ some w)

insert_message-Position_new :
    (m : MessageItem) (ms : List MessageItem) → Position (insert_message m ms) m
unfolding insert_message
insert_message-Position_new m [] = (0, refl)
insert_message-Position_new m (n ∷ ns) =
    let (j, e) = insert_message-Position_new m ns in
    elim (Bool-cases (ltb_ℤ (pos 0) (compare_messages m n))) [
      | inl after ↦ rw after (suc j, e)
      | inr before ↦ rw before (0, refl)
    ]

insert_message-Position :
    (m w : MessageItem) (ms : List MessageItem) (i : ℕ)
    → get_elem? ms i ≡ some w
    → Position (insert_message m ms) w
unfolding insert_message
insert_message-Position m w [] i h = cc
insert_message-Position m w (n ∷ ns) zero h =
    elim (Bool-cases (ltb_ℤ (pos 0) (compare_messages m n))) [
      | inl after ↦ rw after (0, h)
      | inr before ↦ rw before (1, h)
    ]
insert_message-Position m w (n ∷ ns) (suc i) h =
    let (j, e) = insert_message-Position m w ns i h in
    elim (Bool-cases (ltb_ℤ (pos 0) (compare_messages m n))) [
      | inl after ↦ rw after (suc j, e)
      | inr before ↦ rw before (suc (suc i), h)
    ]

pub sort_messages-Position :
    (w : MessageItem) (ms : List MessageItem) (i : ℕ)
    → get_elem? ms i ≡ some w
    → Position (sort_messages ms) w
unfolding sort_messages
sort_messages-Position w [] i h = cc
sort_messages-Position w (m ∷ ms) zero h =
    let (j, e) = insert_message-Position_new m (sort_messages ms) in (j, e ∙ h)
sort_messages-Position w (m ∷ ms) (suc i) h =
    let (j, e) = sort_messages-Position w ms i h in
    insert_message-Position m w (sort_messages ms) j e

count_client-pos :
    (ms : List MessageItem) (j : ℕ) (w : MessageItem)
    → get_elem? ms j ≡ some w
    → 1 ≤ count_client (client_of w) ms
count_client-pos [] j w h = cc
count_client-pos (m ∷ ms) zero w h =
    let e : m ≡ w = ground arith in rw (e, text_eq_refl (client_of w)) (omega arith)
count_client-pos (m ∷ ms) (suc j) w h = ground (arith, count_client-pos ms j w h)

pub find_client_at :
    (ms : List MessageItem) (j : ℕ) (w : MessageItem)
    → UniqueClients ms
    → client_of w ≢ []
    → get_elem? ms j ≡ some w
    → find_client (client_of w) ms ≡ some w
find_client_at [] j w u n h = cc
find_client_at (m ∷ ms) zero w u n h =
    let e : m ≡ w = ground arith in rw (e, text_eq_refl (client_of w))
find_client_at (m ∷ ms) (suc j) w u n h = ground (
  arith,
  u (client_of w) n,
  count_client-pos ms j w h,
  find_client_at ms j w (UniqueClients-tail m ms u) n h,
)
