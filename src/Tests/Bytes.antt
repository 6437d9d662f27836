-- ===== src/Tests/Bytes.antt =====
-- Bytes for the values of the stage's control channel, of a kind that can be read again.
use ivena_meet.Base.{
  Text, ℤ, pos, negsuc, ℕ, zero, suc, ◌+◌, ◌≤◌, ◌≡◌, refl, ap, ◌∙◌, true, false, Option, none, some,
  List, [], ◌∷◌, arith,
}
use ivena_meet.Stage.Json.{
  Json, null_value, array_value, boolean, number, string, object, Fields, no_fields, field, Codec,
}

abbrev encode_text : Text → List ℕ → List ℕ
encode_text [] k = 0 ∷ k
encode_text (c ∷ s) k = suc c ∷ encode_text s k

abbrev text_cons : ℕ → Option (Text × List ℕ) → Option (Text × List ℕ)
text_cons c none = none
text_cons c (some (s, k)) = some (c ∷ s, k)

abbrev decode_text : List ℕ → Option (Text × List ℕ)
decode_text [] = none
decode_text (zero ∷ k) = some ([], k)
decode_text (suc c ∷ k) = text_cons c (decode_text k)

decode-encode_text : (s : Text) (k : List ℕ) → decode_text (encode_text s k) ≡ some (s, k)
decode-encode_text [] k = refl
decode-encode_text (c ∷ s) k = ap (text_cons c) (decode-encode_text s k)

mutual
  encode_value : Json → List ℕ → List ℕ
  encode_value null_value k = 0 ∷ k
  encode_value array_value k = 1 ∷ k
  encode_value (boolean false) k = 2 ∷ k
  encode_value (boolean true) k = 3 ∷ k
  encode_value (number (pos n)) k = 4 ∷ n ∷ k
  encode_value (number (negsuc n)) k = 5 ∷ n ∷ k
  encode_value (string s) k = 6 ∷ encode_text s k
  encode_value (object fs) k = 7 ∷ encode_fields fs k

  encode_fields : Fields → List ℕ → List ℕ
  encode_fields no_fields k = 0 ∷ k
  encode_fields (field j v fs) k = 1 ∷ encode_text j (encode_value v (encode_fields fs k))

mutual
  size_value : Json → ℕ
  size_value null_value = 1
  size_value array_value = 1
  size_value (boolean b) = 1
  size_value (number n) = 1
  size_value (string s) = 1
  size_value (object fs) = suc (size_fields fs)

  size_fields : Fields → ℕ
  size_fields no_fields = 1
  size_fields (field j v fs) = suc (size_value v + size_fields fs)

abbrev Read : Type 0
Read = Option (Json × List ℕ)

abbrev as_string : Option (Text × List ℕ) → Read
as_string none = none
as_string (some (s, k)) = some (string s, k)

abbrev as_object : Option (Fields × List ℕ) → Read
as_object none = none
as_object (some (fs, k)) = some (object fs, k)

abbrev as_number : (ℕ → ℤ) → List ℕ → Read
as_number f [] = none
as_number f (n ∷ k) = some (number (f n), k)

abbrev as_field : Text → Json → Option (Fields × List ℕ) → Option (Fields × List ℕ)
as_field j v none = none
as_field j v (some (fs, k)) = some (field j v fs, k)

abbrev FieldsRead : Type 0
FieldsRead = Option (Fields × List ℕ)

abbrev decode_tagged : (List ℕ → FieldsRead) → ℕ → List ℕ → Read
decode_tagged f zero xs = some (null_value, xs)
decode_tagged f (suc zero) xs = some (array_value, xs)
decode_tagged f (suc (suc zero)) xs = some (boolean false, xs)
decode_tagged f (suc (suc (suc zero))) xs = some (boolean true, xs)
decode_tagged f (suc (suc (suc (suc zero)))) xs = as_number pos xs
decode_tagged f (suc (suc (suc (suc (suc zero))))) xs = as_number negsuc xs
decode_tagged f (suc (suc (suc (suc (suc (suc zero)))))) xs = as_string (decode_text xs)
decode_tagged f (suc (suc (suc (suc (suc (suc (suc t))))))) xs = as_object (f xs)

abbrev after_value : (List ℕ → FieldsRead) → Text → Read → FieldsRead
after_value f j none = none
after_value f j (some (v, xs)) = as_field j v (f xs)

abbrev after_key : (List ℕ → Read) → (List ℕ → FieldsRead) → Option (Text × List ℕ) → FieldsRead
after_key r f none = none
after_key r f (some (j, xs)) = after_value f j (r xs)

mutual
  decode_value : ℕ → List ℕ → Read
  decode_value zero xs = none
  decode_value (suc n) [] = none
  decode_value (suc n) (t ∷ xs) = decode_tagged (decode_fields n) t xs

  decode_fields : ℕ → List ℕ → FieldsRead
  decode_fields zero xs = none
  decode_fields (suc n) [] = none
  decode_fields (suc n) (zero ∷ xs) = some (no_fields, xs)
  decode_fields (suc n) (suc t ∷ xs) = after_key (decode_value n) (decode_fields n) (decode_text xs)

mutual
  unfolding encode_value size_value decode_value

  read_value :
      (n : ℕ) (v : Json) (k : List ℕ)
      → size_value v ≤ n
      → decode_value n (encode_value v k) ≡ some (v, k)
  read_value zero null_value k h = ground (arith, h)
  read_value zero array_value k h = ground (arith, h)
  read_value zero (boolean b) k h = ground (arith, h)
  read_value zero (number b) k h = ground (arith, h)
  read_value zero (string b) k h = ground (arith, h)
  read_value zero (object b) k h = ground (arith, h)
  read_value (suc n) null_value k h = refl
  read_value (suc n) array_value k h = refl
  read_value (suc n) (boolean true) k h = refl
  read_value (suc n) (boolean false) k h = refl
  read_value (suc n) (number (pos m)) k h = refl
  read_value (suc n) (number (negsuc m)) k h = refl
  read_value (suc n) (string s) k h = ap as_string (decode-encode_text s k)
  read_value (suc n) (object fs) k h = ap as_object (read_fields n fs k (omega (arith, h)))

  read_fields :
      (n : ℕ) (fs : Fields) (k : List ℕ)
      → size_fields fs ≤ n
      → decode_fields n (encode_fields fs k) ≡ some (fs, k)
  read_fields zero no_fields k h = ground (arith, h)
  read_fields zero (field j v fs) k h = ground (arith, h)
  read_fields (suc n) no_fields k h = refl
  read_fields (suc n) (field j v fs) k h =
      ap (after_key (decode_value n) (decode_fields n)) (decode-encode_text j _)
      ∙ (ap (after_value (decode_fields n) j) (read_value n v _ (omega (arith, h)))
          ∙ ap (as_field j v) (read_fields n fs k (omega (arith, h))))

-- The size of the value goes first, as fuel for reading it.
encode_all : Json → List ℕ
encode_all v = size_value v ∷ encode_value v []

abbrev value_of : Read → Option Json
value_of none = none
value_of (some (v, k)) = some v

decode_all : List ℕ → Option Json
decode_all [] = none
decode_all (n ∷ xs) = value_of (decode_value n xs)

read_all : (v : Json) → decode_all (encode_all v) ≡ some v
unfolding decode_all encode_all
read_all v = ap value_of (read_value (size_value v) v [] (omega arith))

pub test_codec : Codec
test_codec = record { encode = encode_all; decode = decode_all; decode-encode = λ v h. read_all v }
