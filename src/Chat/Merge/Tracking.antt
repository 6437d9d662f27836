-- ===== src/Chat/Merge/Tracking.antt =====
-- `mergeMessages`: the map from client ids to positions, and the client ids in the list.
use ivena_meet.Base.{
  if◌then◌else◌, Bool-cases, get_elem?, text_eq, is_empty, Text, text_eq_iff, text_eq_refl,
  text_eq_instance, ℕ, zero, suc, ◌+◌, ◌≤◌, ◌<◌, ◌≡◌, refl, ap, ◌∙◌, ◌≢◌, ◌⊎◌, inl, inr, false,
  some, List, [], ◌∷◌, arith,
}
use ivena_meet.Types.{MessageItem}
use ivena_meet.Chat.Message.{client_of}
use ivena_meet.Chat.Merge.{get, put_client, index_clients}

-- How many messages carry the client id `c`.
abbrev pub count_client : Text → List MessageItem → ℕ
count_client c [] = 0
count_client c (m ∷ ms) =
    if text_eq (client_of m) c then suc (count_client c ms) else count_client c ms

-- No client id stands twice; the empty one, of messages that have none, may.
abbrev pub UniqueClients : List MessageItem → Type 0
UniqueClients ms = (c : Text) → c ≢ [] → count_client c ms ≤ 1

-- The map leads from each client id to the position of its message, counted from `k`.
abbrev pub Tracks : List (Text × ℕ) → ℕ → List MessageItem → Type 0
Tracks f k ms =
    (i : ℕ) (m : MessageItem)
    → get_elem? ms i ≡ some m
    → client_of m ≢ []
    → get (client_of m) f ≡ some (k + i)

pub Tracks-tail :
    (f : List (Text × ℕ)) (k : ℕ) (x : MessageItem) (xs : List MessageItem)
    → Tracks f k (x ∷ xs)
    → Tracks f (suc k) xs
Tracks-tail f k x xs t i m h n = t (suc i) m h n ∙ ap some (omega arith)

count_client_earlier :
    (f : List (Text × ℕ)) (k : ℕ) (ms : List MessageItem) (c : Text) (j : ℕ)
    → Tracks f k ms
    → c ≢ []
    → get c f ≡ some j
    → j < k
    → count_client c ms ≡ 0
count_client_earlier f k [] c j t n h lt = refl
count_client_earlier f k (x ∷ xs) c j t n h lt = ground (
  arith,
  t 0 x refl,
  text_eq_iff (client_of x) c,
  count_client_earlier f (suc k) xs c j (Tracks-tail f k x xs t) n h,
)

pub Tracks-UniqueClients :
    (f : List (Text × ℕ)) (k : ℕ) (ms : List MessageItem) → Tracks f k ms → UniqueClients ms
Tracks-UniqueClients f k [] t c n = omega arith
Tracks-UniqueClients f k (x ∷ xs) t c n =
    let later = Tracks-tail f k x xs t in
    ground (
      arith,
      t 0 x refl,
      text_eq_iff (client_of x) c,
      Tracks-UniqueClients f (suc k) xs later c n,
      count_client_earlier f (suc k) xs c k later n,
    )

pub get-put_client :
    (c d : Text) (i : ℕ) (f : List (Text × ℕ))
    → d ≢ []
    → get c (put_client d i f) ≡ (if text_eq d c then some i else get c f)
unfolding get put_client is_empty
get-put_client c [] i f n = absurd (n refl)
get-put_client c (x ∷ d) i f n = refl

pub put_client_empty : (i : ℕ) (f : List (Text × ℕ)) → put_client [] i f ≡ f
unfolding put_client is_empty
put_client_empty i f = refl

pub Text-cases : (c : Text) → (c ≡ []) ⊎ (c ≢ [])
Text-cases [] = inl refl
Text-cases (x ∷ c) = inr (λ e. cc)

get-put_client_ne :
    (c d : Text) (i : ℕ) (f : List (Text × ℕ))
    → text_eq d c ≡ false
    → get c (put_client d i f) ≡ get c f
get-put_client_ne c d i f h = elim (Text-cases d) [
  | inl e ↦ rw (e, put_client_empty i f)
  | inr n ↦ rw (get-put_client c d i f n, h)
]

index_clients_absent :
    (k : ℕ) (ms : List MessageItem) (f : List (Text × ℕ)) (c : Text)
    → c ≢ []
    → count_client c ms ≡ 0
    → get c (index_clients k ms f) ≡ get c f
unfolding index_clients
index_clients_absent k [] f c n h = refl
index_clients_absent k (x ∷ xs) f c n h = elim (Bool-cases (text_eq (client_of x) c)) [
  | inl e ↦ absurd (ground (arith, e))
  | inr e ↦
      index_clients_absent (suc k) xs _ c n (ground (arith, e))
      ∙ get-put_client_ne c (client_of x) k f e
]

pub UniqueClients-tail :
    (x : MessageItem) (xs : List MessageItem) → UniqueClients (x ∷ xs) → UniqueClients xs
UniqueClients-tail x xs u c n = ground (arith, u c n)

-- The indexing loop makes a map that tracks a list without repeated client ids.
pub index_clients-Tracks :
    (k : ℕ) (ms : List MessageItem) (f : List (Text × ℕ))
    → UniqueClients ms
    → Tracks (index_clients k ms f) k ms
unfolding index_clients
index_clients-Tracks k [] f u i m h n = cc
index_clients-Tracks k (x ∷ xs) f u zero m h n =
    let e : x ≡ m = ground arith in
    let one = u (client_of m) n in
    let none_later : count_client (client_of m) xs ≡ 0 =
      ground (arith, one, text_eq_refl (client_of m), e) in
    index_clients_absent (suc k) xs _ (client_of m) n none_later
    ∙ rw e (
        get-put_client (client_of m) (client_of m) k f n
        ∙ rw (text_eq_refl (client_of m)) (ap some (omega arith)))
index_clients-Tracks k (x ∷ xs) f u (suc i) m h n =
    index_clients-Tracks (suc k) xs (put_client (client_of x) k f) (UniqueClients-tail x xs u) i m h
      n
    ∙ ap some (omega arith)
