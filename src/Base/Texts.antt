-- ===== src/Base/Texts.antt =====
-- JavaScript strings as lists of UTF-16 code units, and the methods that the source calls on them.
use Prim.Native.Nat.{ℕ, zero, suc, ◌+◌, ◌/◌, ◌%◌}
use Prim.Native.Char.{code}
use Prim.Native.String.{String}
use mathlib.Core.Path.{◌≡◌, refl, ap₂}
use mathlib.Core.Logic.{◌↔◌}
use mathlib.Core.Bool.{Bool, true, false, ◌&&◌, ◌||◌}
use mathlib.Core.Option.{Option, none, some}
use mathlib.Core.Option
use mathlib.Core.List.{List, [], ◌∷◌, ◌++◌, reverse}
use native.Mathlib.Omega.{arith}
use ivena_meet.Base.Tests.{leb, ltb, ◌==◌, ==_iff, if◌then◌else◌, and_split}

abbrev pub Text : Type 0
Text = List ℕ

-- The code units of a literal inside the basic plane.
abbrev pub codes : String → Text
codes String.[] = []
codes (String.◌∷◌ c s) = code c ∷ codes s

-- `!s`
unfoldable pub is_empty : Text → Bool
is_empty [] = true
is_empty (c ∷ s) = false

-- `a === b`
unfoldable pub text_eq : Text → Text → Bool
text_eq [] [] = true
text_eq [] (d ∷ t) = false
text_eq (c ∷ s) [] = false
text_eq (c ∷ s) (d ∷ t) = (c == d) && text_eq s t

pub text_eq_refl : (s : Text) → text_eq s s ≡ true
unfolding text_eq
text_eq_refl [] = refl
text_eq_refl (c ∷ s) = ground (arith, text_eq_refl s)

text_eq_sound : (s t : Text) → text_eq s t ≡ true → s ≡ t
unfolding text_eq
text_eq_sound [] [] h = refl
text_eq_sound [] (d ∷ t) h = cc
text_eq_sound (c ∷ s) [] h = cc
text_eq_sound (c ∷ s) (d ∷ t) h =
    let (p, q) = and_split (c == d) (text_eq s t) h in
    ap₂ ◌∷◌ ((==_iff c d).0 p) (text_eq_sound s t q)

pub text_eq_iff : (s t : Text) → (text_eq s t ≡ true) ↔ (s ≡ t)
text_eq_iff s t = (text_eq_sound s t, λ e. subst_refl e)
  where
    subst_refl : s ≡ t → text_eq s t ≡ true
    subst_refl e = rw (← e) (text_eq_refl s)

-- `s.startsWith(p)`
unfoldable pub starts_with : Text → Text → Bool
starts_with s [] = true
starts_with [] (d ∷ p) = false
starts_with (c ∷ s) (d ∷ p) = (c == d) && starts_with s p

pub starts_with-append : (p s : Text) → starts_with (p ++ s) p ≡ true
unfolding starts_with
starts_with-append [] [] = refl
starts_with-append [] (c ∷ s) = refl
starts_with-append (c ∷ p) s = ground (arith, starts_with-append p s)

-- `s.endsWith(p)`
unfoldable pub ends_with : Text → Text → Bool
ends_with s p = starts_with (reverse s) (reverse p)

-- The white space and line terminators of ECMAScript.
unfoldable pub is_space : ℕ → Bool
is_space c =
    (leb 9 c && leb c 13)
    || (c == 32)
    || (c == 0xa0)
    || (c == 0x1680)
    || (leb 0x2000 c && leb c 0x200a)
    || (c == 0x2028)
    || (c == 0x2029)
    || (c == 0x202f)
    || (c == 0x205f)
    || (c == 0x3000)
    || (c == 0xfeff)

drop_while : (ℕ → Bool) → Text → Text
drop_while p [] = []
drop_while p (c ∷ s) = let rest = drop_while p s in if p c then rest else c ∷ s

unfoldable pub trim_start : Text → Text
unfolding drop_while is_space
trim_start s = drop_while is_space s

unfoldable pub trim_end : Text → Text
unfolding drop_while is_space
trim_end s = reverse (drop_while is_space (reverse s))

unfoldable pub trim : Text → Text
unfolding trim_start trim_end
trim s = trim_end (trim_start s)

-- `s.replace(/\/+$/, "")`
unfoldable pub strip_slashes : Text → Text
unfolding drop_while
strip_slashes s = reverse (drop_while (λ c. c == b'/') (reverse s))

-- `s.replace(/^\/+/, "")`
unfoldable pub strip_leading_slashes : Text → Text
unfolding drop_while
strip_leading_slashes s = drop_while (λ c. c == b'/') s

-- `s.indexOf(p)`, with `none` for -1
unfoldable pub index_of : Text → Text → Option ℕ
unfolding starts_with
index_of [] p = if starts_with [] p then some 0 else none
index_of (c ∷ s) p =
    let rest = Option.map suc (index_of s p) in if starts_with (c ∷ s) p then some 0 else rest

-- `s.includes(p)`
unfoldable pub includes : Text → Text → Bool
unfolding index_of
includes s p = elim (index_of s p) [ none ↦ false | some i ↦ true ]

-- The decimal digits of a number, as in a template literal; `fuel` above the number is enough.
digits_from : ℕ → ℕ → Text → Text
digits_from zero n acc = acc
digits_from (suc fuel) n acc =
    let rest = digits_from fuel (n / 10) ((b'0' + n % 10) ∷ acc) in
    if ltb n 10 then (b'0' + n) ∷ acc else rest

unfoldable pub to_decimal : ℕ → Text
unfolding digits_from
to_decimal n = digits_from (suc n) n []
