-- ===== src/Api/Sse/Chunks.antt =====
-- api.ts: how the text is cut into chunks does not matter.
use mathlib.Core.List.{append_assoc, append-nil}
use mathlib.Core.Path.{ap₂}
use mathlib.Core.Option
use ivena_meet.Base.{
  ◌==◌, Bool-cases, Option-cases, and_split, length, take, drop, starts_with, index_of, Text, ℕ,
  zero, suc, ◌+◌, ◌≤◌, ◌<◌, ◌≡◌, refl, sym, ap, ◌∙◌, inl, inr, true, ◌&&◌, Option, none, some, List,
  [], ◌∷◌, ◌++◌, arith,
}
use ivena_meet.Types.{MessageItem}
use ivena_meet.Api.Sse.{SseCall, strip_returns, dispatch_frame, drain, read_chunk, read_chunks}

starts_with-length : (s p : Text) → starts_with s p ≡ true → length p ≤ length s
unfolding starts_with
starts_with-length s [] h = omega arith
starts_with-length [] (d ∷ p) h = cc
starts_with-length (c ∷ s) (d ∷ p) h =
    omega (arith, starts_with-length s p (and_split (c == d) (starts_with s p) h).1)

starts_with-append_right :
    (s t p : Text) → length p ≤ length s → starts_with (s ++ t) p ≡ starts_with s p
unfolding starts_with
starts_with-append_right [] [] [] h = refl
starts_with-append_right [] (c ∷ t) [] h = refl
starts_with-append_right (c ∷ s) t [] h = refl
starts_with-append_right [] t (d ∷ p) h = absurd (omega arith)
starts_with-append_right (c ∷ s) t (d ∷ p) h =
    ap (◌&&◌ (c == d)) (starts_with-append_right s t p (omega arith))

map-suc-eq-some :
    (o : Option ℕ) (i : ℕ) → Option.map suc o ≡ some i → (j : ℕ) × (o ≡ some j) × (i ≡ suc j)
map-suc-eq-some none i h = absurd (ground (arith, h))
map-suc-eq-some (some j) i h = (j, refl, ground (arith, h))

-- A first occurrence leaves room for the pattern, and stays the first when text is added.
index_of-bound : (s p : Text) (i : ℕ) → index_of s p ≡ some i → i + length p ≤ length s
unfolding index_of
index_of-bound [] p i h = elim (Bool-cases (starts_with [] p)) [
  | inl e ↦ ground (arith, e, starts_with-length [] p)
  | inr e ↦ ground (arith, e)
]
index_of-bound (c ∷ s) p i h = elim (Bool-cases (starts_with (c ∷ s) p)) [
  | inl e ↦ ground (arith, e, starts_with-length (c ∷ s) p)
  | inr e ↦
      let (j, found, next) = map-suc-eq-some (index_of s p) i (ground (arith, e)) in
      omega (arith, next, index_of-bound s p j found)
]

index_of-append : (s t p : Text) (i : ℕ) → index_of s p ≡ some i → index_of (s ++ t) p ≡ some i
unfolding index_of
index_of-append [] t [] i h = index_of_nil t ∙ h
  where
    index_of_nil : (u : Text) → index_of u [] ≡ some 0
    index_of_nil [] = refl
    index_of_nil (c ∷ u) = refl
index_of-append [] t (d ∷ p) i h = absurd (ground (arith, h))
index_of-append (c ∷ s) t p i h = elim (Bool-cases (starts_with (c ∷ s) p)) [
  | inl e ↦
      let fits = starts_with-length (c ∷ s) p e in
      ground (arith, e, starts_with-append_right (c ∷ s) t p fits)
  | inr e ↦
      let (j, found, next) = map-suc-eq-some (index_of s p) i (ground (arith, e)) in
      let fits : length p ≤ length (c ∷ s) = omega (arith, index_of-bound s p j found) in
      ground
        (arith, e, starts_with-append_right (c ∷ s) t p fits, index_of-append s t p j found, next)
]

take-append : (s t : Text) (i : ℕ) → i ≤ length s → take i (s ++ t) ≡ take i s
take-append s t zero h = refl
take-append [] t (suc i) h = absurd (omega arith)
take-append (c ∷ s) t (suc i) h = ap (◌∷◌ c) (take-append s t i (omega arith))

drop-append : (s t : Text) (i : ℕ) → i ≤ length s → drop i (s ++ t) ≡ drop i s ++ t
drop-append s t zero h = refl
drop-append [] t (suc i) h = absurd (omega arith)
drop-append (c ∷ s) t (suc i) h = drop-append s t i (omega arith)

length-drop : (s : Text) (i : ℕ) → i ≤ length s → length (drop i s) + i ≡ length s
length-drop s zero h = omega arith
length-drop [] (suc i) h = absurd (omega arith)
length-drop (c ∷ s) (suc i) h = omega (arith, length-drop s i (omega arith))

strip_returns-append : (s t : Text) → strip_returns (s ++ t) ≡ strip_returns s ++ strip_returns t
unfolding strip_returns
strip_returns-append [] t = refl
strip_returns-append (c ∷ s) t = ground (arith, strip_returns-append s t)

abbrev pub joined : List Text → Text
joined [] = []
joined (c ∷ cs) = c ++ joined cs

abbrev pub blank_line : Text
blank_line = 10 ∷ 10 ∷ []

module _ (parse_message : Text → Option MessageItem) where
  -- Fuel above the length of the buffer is enough, and more changes nothing.
  drain_fuel :
      (f g : ℕ) (b : Text)
      → length b < f
      → length b < g
      → drain parse_message f b ≡ drain parse_message g b
  unfolding drain
  drain_fuel zero g b h k = absurd (omega arith)
  drain_fuel (suc f) zero b h k = absurd (omega arith)
  drain_fuel (suc f) (suc g) b h k = elim (Option-cases (index_of b blank_line)) [
    | inl e ↦ rw (e, drain)
    | inr (i, e) ↦
        let bound : i + 2 ≤ length b = index_of-bound b blank_line i e in
        let shorter = length-drop b (i + 2) bound in
        let ih =
          drain_fuel f g (drop (i + 2) b) (omega (arith, shorter)) (omega (arith, shorter)) in
        rw (e, drain) (rw ih refl)
  ]

  -- The calls for all frames of a buffer, and its rest.
  abbrev pub drained : Text → List SseCall × Text
  drained b = drain parse_message (suc (length b)) b

  drained-none : (b : Text) → index_of b blank_line ≡ none → drained b ≡ ([], b)
  unfolding drain
  drained-none b e = rw (e, drain)

  drained-some :
      (b : Text) (i : ℕ)
      → index_of b blank_line ≡ some i
      → let rest = drained (drop (i + 2) b) in
        drained b ≡ (dispatch_frame parse_message (take i b) ++ rest.0, rest.1)
  unfolding drain
  drained-some b i e =
      let bound : i + 2 ≤ length b = index_of-bound b blank_line i e in
      let shorter = length-drop b (i + 2) bound in
      let same_rest =
        drain_fuel (length b) (suc (length (drop (i + 2) b))) (drop (i + 2) b)
          (omega (arith, shorter)) (omega arith) in
      rw (e, drain) (rw same_rest refl)

  -- Draining a buffer, and then what is left with more text behind it, is draining the whole.
  drained-append :
      (n : ℕ) (b t : Text)
      → length b < n
      → let now = drained b in
        let later = drained (now.1 ++ t) in drained (b ++ t) ≡ (now.0 ++ later.0, later.1)
  drained-append zero b t h = absurd (omega arith)
  drained-append (suc n) b t h = elim (Option-cases (index_of b blank_line)) [
    | inl e ↦ rw (drained-none b e)
    | inr (i, e) ↦
        let bound : i + 2 ≤ length b = index_of-bound b blank_line i e in
        let shorter = length-drop b (i + 2) bound in
        let ih = drained-append n (drop (i + 2) b) t (omega (arith, shorter)) in
        rw
          (
            drained-some b i e,
            drained-some (b ++ t) i (index_of-append b t blank_line i e),
            take-append b t i (omega arith),
            drop-append b t (i + 2) bound,
            ih,
          )
          (ap₂ (λ (x : List SseCall) (y : Text). (x, y))
            (sym (append_assoc (dispatch_frame parse_message (take i b)) _ _)) refl)
  ]

  drained_rest : (n : ℕ) (b : Text) → length b < n → index_of (drained b).1 blank_line ≡ none
  drained_rest zero b h = absurd (omega arith)
  drained_rest (suc n) b h = elim (Option-cases (index_of b blank_line)) [
    | inl e ↦ rw (drained-none b e) e
    | inr (i, e) ↦
        let bound : i + 2 ≤ length b = index_of-bound b blank_line i e in
        let shorter = length-drop b (i + 2) bound in
        rw (drained-some b i e) (drained_rest n (drop (i + 2) b) (omega (arith, shorter)))
  ]

  read_chunks_from :
      (buffer : Text) (chunks : List Text)
      → index_of buffer blank_line ≡ none
      → read_chunks parse_message buffer chunks ≡ drained (buffer ++ strip_returns (joined chunks))
  unfolding read_chunks read_chunk strip_returns
  read_chunks_from buffer [] h = rw append-nil (sym (drained-none buffer h))
  read_chunks_from buffer (chunk ∷ chunks) h =
      let b = buffer ++ strip_returns chunk in
      let ih =
        read_chunks_from (drained b).1 chunks (drained_rest (suc (length b)) b (omega arith)) in
      ap (λ (later : List SseCall × Text). ((drained b).0 ++ later.0, later.1)) ih
      ∙ sym (drained-append (suc (length b)) b (strip_returns (joined chunks)) (omega arith))
      ∙ ap drained (
          append_assoc buffer (strip_returns chunk) (strip_returns (joined chunks))
          ∙ ap (◌++◌ buffer) (sym (strip_returns-append chunk (joined chunks))))

  -- However the text of a stream that its handlers leave open is cut into chunks, they are called with the same events
  -- in the same order, and the same text is left over, as if it came in one chunk.
  pub read_chunks-joined :
      (chunks : List Text)
      → read_chunks parse_message [] chunks ≡ read_chunks parse_message [] (joined chunks ∷ [])
  unfolding index_of
  read_chunks-joined chunks =
      read_chunks_from [] chunks refl
      ∙ sym (
          read_chunks_from [] (joined chunks ∷ []) refl
          ∙ ap (λ (t : Text). drained (strip_returns t)) (append-nil (joined chunks)))
