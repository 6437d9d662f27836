-- ===== src/Storage.antt =====
-- The browser's `localStorage`, which the source calls. It may refuse to be read or written, as in
-- a private window or where its quota is used up.
use ivena_meet.Base.{
  if◌then◌else◌, text_eq, Text, ◌≡◌, refl, Bool, Option, none, some, List, [], ◌∷◌, arith,
}

pub record Storage : Type 0 where
  pub items : List (Text × Text)
  pub is_readable : Bool
  pub is_writable : Bool

unfoldable pub find_item : Text → List (Text × Text) → Option Text
find_item k [] = none
find_item k ((j, v) ∷ m) = if text_eq j k then some v else find_item k m

unfoldable pub erase_item : Text → List (Text × Text) → List (Text × Text)
erase_item k [] = []
erase_item k ((j, v) ∷ m) = let rest = erase_item k m in if text_eq j k then rest else (j, v) ∷ rest

-- `getItem`; the outer `none` is an exception.
unfoldable pub get_item : Text → Storage → Option (Option Text)
unfolding find_item text_eq
get_item k s = if s.is_readable then some (find_item k s.items) else none

-- `setItem` and `removeItem`; `none` is an exception.
unfoldable pub set_item : Text → Text → Storage → Option Storage
set_item k v s = if s.is_writable then some (record s { items = (k, v) ∷ s.items }) else none

unfoldable pub remove_item : Text → Storage → Option Storage
unfolding erase_item text_eq
remove_item k s = if s.is_writable then some (record s { items = erase_item k s.items }) else none

-- `try { … } catch {}`
abbrev pub or_same : Option Storage → Storage → Storage
or_same none s = s
or_same (some t) s = t

pub find_item-erase_item : (k : Text) (m : List (Text × Text)) → find_item k (erase_item k m) ≡ none
unfolding find_item erase_item
find_item-erase_item k [] = refl
find_item-erase_item k ((j, v) ∷ m) = ground (arith, find_item-erase_item k m)
