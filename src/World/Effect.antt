-- ===== src/World/Effect.antt =====
-- Asynchronous functions: a step from world to world that returns a value or throws. A function
-- reads what its render captured from one world and writes to another; between two awaits of one
-- function the model lets no other handler run.
use ivena_meet.Base.{if◌then◌else◌, Text, ◌≡◌, refl, ◌⊎◌, inl, inr, Bool, [], ◌∷◌, ◌++◌}
use ivena_meet.World.{AvatarState, RoomState, World}

pub data Outcome (A : Type 0) : Type 0 where
  ok : A → Outcome A
  thrown : Text → Outcome A

abbrev pub M : Type 0 → Type 0
M A = World → Outcome A × World

abbrev pub and_then : {A B : Type 0} → Outcome A × World → (A → M B) → Outcome B × World
and_then (ok a, w) f = f a w
and_then (thrown e, w) f = (thrown e, w)

infixl 5 ◌>>=◌ ◌>>◌
abbrev pub ◌>>=◌ : {A B : Type 0} → M A → (A → M B) → M B
◌>>=◌ m f w = and_then (m w) f

abbrev pub ◌>>◌ : {B : Type 0} → M (Unit {0}) → M B → M B
◌>>◌ m k w = and_then (m w) (λ _. k)

abbrev pub return : {A : Type 0} → A → M A
return a w = (ok a, w)

abbrev pub throw : {A : Type 0} → Text → M A
throw e w = (thrown e, w)

abbrev pub modify : (World → World) → M (Unit {0})
modify f w = (ok tt, f w)

-- `ref.current`, read when it is reached.
abbrev pub gets : {A : Type 0} → (World → A) → M A
gets f w = (ok (f w), w)

abbrev pub rescue : {A : Type 0} → Outcome A × World → (Text → M A) → Outcome A × World
rescue (ok a, w) h = (ok a, w)
rescue (thrown e, w) h = h e w

-- `try { m } catch (e) { h(e) }`
abbrev pub catching : {A : Type 0} → M A → (Text → M A) → M A
catching m h w = rescue (m w) h

-- `try { m } finally { f }`
abbrev pub finally : {A : Type 0} → M A → (World → World) → M A
finally m f w = let r = m w in (r.0, f r.1)

abbrev pub when : Bool → M (Unit {0}) → M (Unit {0})
when b m = if b then m else return tt

abbrev pub update_room : (RoomState → RoomState) → World → World
update_room f w = record w { room = f w.room }

abbrev pub update_avatar : (AvatarState → AvatarState) → World → World
update_avatar f w = record w { avatar = f w.avatar }

abbrev pub log_to : Text → World → World
log_to line w = record w { logs = w.logs ++ line ∷ [] }

abbrev pub push_log : Text → M (Unit {0})
push_log line = modify (log_to line)

pub Outcome-cases :
    {A : Type 0} (r : Outcome A) → ((a : A) × (r ≡ ok a)) ⊎ ((e : Text) × (r ≡ thrown e))
Outcome-cases (ok a) = inl (a, refl)
Outcome-cases (thrown e) = inr (e, refl)
