-- ===== src/Logs/Bound.antt =====
-- Layout.tsx: which lines the log keeps.
use mathlib.Core.List.{append_assoc, append-nil}
use ivena_meet.Base.{
  length, drop, length-append, Text, ℕ, zero, suc, ◌+◌, ◌-◌, ◌≤◌, ◌≡◌, refl, sym, ap, ◌∙◌, List, [],
  ◌∷◌, ◌++◌, arith,
}
use ivena_meet.Logs.{slice_last, append_log, append_logs}

pub length-drop : (n : ℕ) (xs : List Text) → length (drop n xs) ≡ length xs - n
length-drop zero xs = omega arith
length-drop (suc n) [] = omega arith
length-drop (suc n) (x ∷ xs) = omega (arith, length-drop n xs)

abbrev no_lines : List Text
no_lines = []

drop-nil : (n : ℕ) → drop n no_lines ≡ no_lines
drop-nil zero = refl
drop-nil (suc n) = refl

drop-drop : (m n : ℕ) (xs : List Text) → drop m (drop n xs) ≡ drop (n + m) xs
drop-drop m zero xs = ap (λ i. drop i xs) (omega arith)
drop-drop m (suc n) [] = drop-nil m ∙ sym (drop-nil (suc n + m))
drop-drop m (suc n) (x ∷ xs) =
    let e : suc (n + m) ≡ suc n + m = omega arith in drop-drop m n xs ∙ ap (λ i. drop i (x ∷ xs)) e

drop-append : (n : ℕ) (xs ys : List Text) → n ≤ length xs → drop n (xs ++ ys) ≡ drop n xs ++ ys
drop-append zero xs ys h = refl
drop-append (suc n) [] ys h = ground (arith, h)
drop-append (suc n) (x ∷ xs) ys h = drop-append n xs ys (omega arith)

pub length-append_log :
    (n : ℕ) (logs : List Text) (line : Text)
    → length logs ≡ suc (suc n)
    → length (append_log (suc (suc n)) logs line) ≡ suc (suc n)
unfolding append_log slice_last
length-append_log n logs line h = omega (
  arith,
  length-append (drop (length logs - suc n) logs) (line ∷ []),
  length-drop (length logs - suc n) logs,
)

-- One more line keeps what was kept, but for the first line of a full log.
append_log-from :
    (n : ℕ) (all : List Text) (line : Text)
    → append_log (suc (suc n)) (drop (length all - suc (suc n)) all) line
      ≡ drop (length (all ++ line ∷ []) - suc (suc n)) (all ++ line ∷ [])
unfolding append_log slice_last
append_log-from n all line =
    let k = length all - suc (suc n) in
    let i = length all - suc n in
    let inner : k + (length (drop k all) - suc n) ≡ i = omega (arith, length-drop k all) in
    let outer : i ≡ length (all ++ line ∷ []) - suc (suc n) =
      omega (arith, length-append all (line ∷ [])) in
    ap (λ l. l ++ line ∷ [])
      (drop-drop (length (drop k all) - suc n) k all ∙ ap (λ d. drop d all) inner)
    ∙ sym (drop-append i all (line ∷ []) (omega arith))
    ∙ ap (λ d. drop d (all ++ line ∷ [])) outer

append_logs-from :
    (n : ℕ) (all lines : List Text)
    → append_logs (suc (suc n)) (drop (length all - suc (suc n)) all) lines
      ≡ drop (length (all ++ lines) - suc (suc n)) (all ++ lines)
unfolding append_logs
append_logs-from n all [] = rw (append-nil all) refl
append_logs-from n all (line ∷ lines) =
    ap (λ l. append_logs (suc (suc n)) l lines) (append_log-from n all line)
    ∙ append_logs-from n (all ++ line ∷ []) lines
    ∙ ap (λ l. drop (length l - suc (suc n)) l) (append_assoc all (line ∷ []) lines)

-- A log of at least two lines keeps the last lines that were pushed, as many as it may hold, in
-- their order.
pub append_logs-last :
    (n : ℕ) (lines : List Text)
    → append_logs (suc (suc n)) [] lines ≡ drop (length lines - suc (suc n)) lines
append_logs-last n lines =
    ap (λ l. append_logs (suc (suc n)) l lines) (sym (drop-nil (length no_lines - suc (suc n))))
    ∙ append_logs-from n [] lines
