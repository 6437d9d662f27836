-- ===== src/Types/Common.antt =====
-- types.ts: the roles and features, and the fields that may be missing or null.
use ivena_meet.Base.{Eq, ◌≡◌, refl, ◌↔◌, ◌⊎◌, inl, inr, Bool, true, false, arith}

pub data Role : Type 0 where
  host member : Role

pub data StageFeature : Type 0 where
  camera screen_share : StageFeature

-- `role === "host"`
abbrev pub is_host : Role → Bool
is_host host = true
is_host member = false

abbrev pub is_member : Role → Bool
is_member host = false
is_member member = true

abbrev pub role_eq : Role → Role → Bool
role_eq host host = true
role_eq member member = true
role_eq host member = false
role_eq member host = false

-- A field declared `name?: A | null`: left out, null, or there.
pub data Opt {ℓ} (A : Type ℓ) : Type ℓ where
  absent : Opt A
  null : Opt A
  present : A → Opt A

-- `field ?? d`
abbrev pub nullish {ℓ} : {A : Type ℓ} → Opt A → A → A
nullish absent d = d
nullish null d = d
nullish (present a) d = a

-- The field of `{ ...prev, ...next }`: a key that `next` lacks keeps its value.
abbrev pub spread {ℓ} : {A : Type ℓ} → Opt A → Opt A → Opt A
spread prev absent = prev
spread prev null = null
spread prev (present a) = present a

pub role_eq_iff : (a b : Role) → (role_eq a b ≡ true) ↔ (a ≡ b)
role_eq_iff a b = ground arith

instance abbrev pub role_eq_instance : Eq Role
role_eq_instance = record { beq = role_eq; beq_iff = role_eq_iff }

module _ {ℓ} {A : Type ℓ} ⦃e : Eq A⦄ where
  unfoldable pub opt_beq : Opt A → Opt A → Bool
  opt_beq absent absent = true
  opt_beq absent null = false
  opt_beq absent (present b) = false
  opt_beq null absent = false
  opt_beq null null = true
  opt_beq null (present b) = false
  opt_beq (present a) absent = false
  opt_beq (present a) null = false
  opt_beq (present a) (present b) = e.beq a b

  pub opt_beq_iff : (a b : Opt A) → (opt_beq a b ≡ true) ↔ (a ≡ b)
  unfolding opt_beq
  opt_beq_iff (present a) (present b) = ground (arith, e.beq_iff a b)
  opt_beq_iff a b = ground arith

  instance abbrev pub opt_eq : Eq (Opt A)
  opt_eq = record { beq = opt_beq; beq_iff = opt_beq_iff }

pub Opt-cases {ℓ} :
    {A : Type ℓ} (o : Opt A) → (o ≡ absent) ⊎ (o ≡ null) ⊎ ((a : A) × (o ≡ present a))
Opt-cases absent = inl refl
Opt-cases null = inr (inl refl)
Opt-cases (present a) = inr (inr (a, refl))
