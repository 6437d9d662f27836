-- ===== src/Layout/Chat/Upsert.antt =====
-- Layout.tsx and useChatState.ts: the two ways to find the message that another one replaces.
use ivena_meet.Base.{
  if◌then◌else◌, Bool-cases, text_eq, is_empty, Text, text_eq_iff, text_eq_refl, ℤ, eqb_ℤ,
  text_eq_instance, whole_eq, ℕ, suc, ◌≤◌, ◌≡◌, refl, ◌∙◌, ◌≢◌, inl, inr, true, false, none, some,
  List, [], ◌∷◌, arith,
}
use ivena_meet.Types.{Opt, absent, null, present, nullish, opt_beq, MessageItem}
use ivena_meet.Layout.Chat.{find_index}
use ivena_meet.Chat.Message.{client_of, has_client}
use ivena_meet.Chat.Merge.{get, put_client, index_ids, index_clients, or_else}
use ivena_meet.Chat.Merge.Tracking.{count_client}

abbrev pub count_id : ℤ → List MessageItem → ℕ
count_id k [] = 0
count_id k (m ∷ ms) = let rest = count_id k ms in if eqb_ℤ m.id k then suc rest else rest

abbrev pub UniqueIds : List MessageItem → Type 0
UniqueIds ms = (k : ℤ) → count_id k ms ≤ 1

opt_beq-text_eq :
    (c : Text) (o : Opt Text) → c ≢ [] → opt_beq o (present c) ≡ text_eq (nullish o []) c
unfolding opt_beq text_eq
opt_beq-text_eq [] o n = ground arith
opt_beq-text_eq (x ∷ c) absent n = refl
opt_beq-text_eq (x ∷ c) null n = refl
opt_beq-text_eq (x ∷ c) (present d) n = refl

pub has_client-text_eq :
    (c : Text) (m : MessageItem) → c ≢ [] → has_client c m ≡ text_eq (client_of m) c
unfolding has_client
has_client-text_eq c m n = opt_beq-text_eq c m.client_id n

find_client_none :
    (c : Text) (ms : List MessageItem) (i : ℕ)
    → c ≢ []
    → count_client c ms ≡ 0
    → find_index i (has_client c) ms ≡ none
unfolding find_index
find_client_none c [] i n h = refl
find_client_none c (m ∷ ms) i n h =
    ground (arith, has_client-text_eq c m n, find_client_none c ms (suc i) n)

get-put_same :
    (c d : Text) (i : ℕ) (f : List (Text × ℕ))
    → c ≢ []
    → text_eq d c ≡ true
    → get {K = Text} c (put_client d i f) ≡ some i
unfolding get put_client is_empty
get-put_same c [] i f n e = ground (arith, text_eq_iff [] c)
get-put_same c (x ∷ d) i f n e = ground (arith, text_eq_iff (x ∷ d) c, text_eq_refl c)

get-put_other :
    (c d : Text) (i : ℕ) (f : List (Text × ℕ))
    → text_eq d c ≡ false
    → get {K = Text} c (put_client d i f) ≡ get {K = Text} c f
unfolding get put_client is_empty
get-put_other c [] i f e = refl
get-put_other c (x ∷ d) i f e =
    ground (arith, text_eq_iff (x ∷ d) c, text_eq_iff c (x ∷ d), text_eq_refl c)

pub get-index_clients :
    (c : Text) (ms : List MessageItem) (i : ℕ) (f : List (Text × ℕ))
    → c ≢ []
    → count_client c ms ≤ 1
    → get {K = Text} c (index_clients i ms f)
      ≡ or_else (find_index i (has_client c) ms) (get {K = Text} c f)
unfolding index_clients find_index
get-index_clients c [] i f n u = refl
get-index_clients c (m ∷ ms) i f n u =
    let rest = get-index_clients c ms (suc i) (put_client (client_of m) i f) n in
    elim (Bool-cases (text_eq (client_of m) c)) [
      | inl e ↦
          let none_left : count_client c ms ≡ 0 = ground (arith, u, e) in
          rest (omega (arith, none_left))
          ∙ rw (find_client_none c ms (suc i) n none_left, has_client-text_eq c m n, e)
              (get-put_same c (client_of m) i f n e)
      | inr e ↦
          rest (ground (arith, u, e))
          ∙ rw (get-put_other c (client_of m) i f e, has_client-text_eq c m n, e) refl
    ]

find_id_none :
    (k : ℤ) (ms : List MessageItem) (i : ℕ)
    → count_id k ms ≡ 0
    → find_index i (λ m. eqb_ℤ m.id k) ms ≡ none
unfolding find_index
find_id_none k [] i h = refl
find_id_none k (m ∷ ms) i h = ground (arith, find_id_none k ms (suc i))

pub get-index_ids :
    (k : ℤ) (ms : List MessageItem) (i : ℕ) (f : List (ℤ × ℕ))
    → count_id k ms ≤ 1
    → get k (index_ids i ms f) ≡ or_else (find_index i (λ m. eqb_ℤ m.id k) ms) (get k f)
unfolding get index_ids find_index
get-index_ids k [] i f u = refl
get-index_ids k (m ∷ ms) i f u =
    let rest = get-index_ids k ms (suc i) ((m.id, i) ∷ f) in
    elim (Bool-cases (eqb_ℤ m.id k)) [
      | inl e ↦
          let none_left : count_id k ms ≡ 0 = ground (arith, u, e) in
          rest (omega (arith, none_left)) ∙ rw (find_id_none k ms (suc i) none_left, e) refl
      | inr e ↦ rest (ground (arith, u, e)) ∙ rw e refl
    ]
