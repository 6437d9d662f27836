-- ===== src/Stage/Json.antt =====
-- The values that `JSON.parse` gives, as far as the source looks into them, and the bytes that they
-- travel as. Of an array the source reads nothing; of the numbers only the whole ones are modelled.
use ivena_meet.Base.{
  if◌then◌else◌, text_eq, Text, ℤ, ℕ, ◌≡◌, Bool, true, false, not, ◌&&◌, ◌||◌, Option, none, some,
  List,
}

mutual
  pub data Json : Type 0 where
    null_value : Json
    array_value : Json
    boolean : Bool → Json
    number : ℤ → Json
    string : Text → Json
    object : Fields → Json

  -- The keys of an object are different.
  pub data Fields : Type 0 where
    no_fields : Fields
    field : Text → Json → Fields → Fields

-- `parsed.key`, where `none` is `undefined`.
unfoldable pub lookup : Text → Fields → Option Json
unfolding text_eq
lookup k no_fields = none
lookup k (field j v fs) = let later = lookup k fs in if text_eq j k then some v else later

abbrev has_key : Text → Fields → Bool
has_key k no_fields = false
has_key k (field j v fs) = text_eq j k || has_key k fs

-- No object inside the value has a key twice, as of every JavaScript object.
unfoldable mutual
  unfolding text_eq

  pub has_distinct_keys : Json → Bool
  has_distinct_keys null_value = true
  has_distinct_keys array_value = true
  has_distinct_keys (boolean b) = true
  has_distinct_keys (number n) = true
  has_distinct_keys (string s) = true
  has_distinct_keys (object fs) = fields_distinct fs

  pub fields_distinct : Fields → Bool
  fields_distinct no_fields = true
  fields_distinct (field k v fs) = not (has_key k fs) && (has_distinct_keys v && fields_distinct fs)

-- `new TextEncoder().encode(JSON.stringify(value))` and back, which the platform does: what was
-- written is read again, and other bytes may be refused.
pub record Codec : Type 0 where
  pub encode : Json → List ℕ
  pub decode : List ℕ → Option Json
  pub decode-encode : (v : Json) → has_distinct_keys v ≡ true → decode (encode v) ≡ some v
