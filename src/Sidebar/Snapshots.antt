-- ===== src/Sidebar/Snapshots.antt =====
-- Sidebar.tsx: what the effect on the members remembers of each.
use ivena_meet.Base.{
  if◌then◌else◌, Bool-cases, text_eq, Text, text_eq_iff, ℕ, suc, ◌≤◌, ◌≡◌, refl, ap, ◌∙◌, inl, inr,
  Option, none, some, List, [], ◌∷◌, arith,
}
use ivena_meet.Types.{MemberItem}
use ivena_meet.Sidebar.{Switches, Snapshot, find_switches, set_switches, switches_of, snapshot_of}

-- How many members have this identity, and the switches of the first.
abbrev pub count_member : Text → List MemberItem → ℕ
count_member k [] = 0
count_member k (m ∷ ms) =
    let rest = count_member k ms in if text_eq m.identity k then suc rest else rest

abbrev pub first_switches : Text → List MemberItem → Option Switches
first_switches k [] = none
first_switches k (m ∷ ms) =
    let rest = first_switches k ms in if text_eq m.identity k then some (switches_of m) else rest

abbrev pub or_given : Option Switches → Option Switches → Option Switches
or_given none b = b
or_given (some a) b = some a

find-set_switches :
    (k id : Text) (f : Switches) (m : Snapshot)
    → find_switches k (set_switches id f m) ≡ (if text_eq id k then some f else find_switches k m)
unfolding find_switches set_switches
find-set_switches k id f [] = refl
find-set_switches k id f ((j, g) ∷ m) =
    ground (arith, find-set_switches k id f m, text_eq_iff j id, text_eq_iff j k, text_eq_iff id k)

pub find-snapshot_none :
    (k : Text) (ms : List MemberItem) (m : Snapshot)
    → count_member k ms ≡ 0
    → find_switches k (snapshot_of ms m) ≡ find_switches k m
unfolding snapshot_of
find-snapshot_none k [] m h = refl
find-snapshot_none k (x ∷ xs) m h =
    find-snapshot_none k xs (set_switches x.identity (switches_of x) m) (ground (arith, h))
    ∙ ground (arith, h, find-set_switches k x.identity (switches_of x) m)

pub find-snapshot_of :
    (k : Text) (ms : List MemberItem) (m : Snapshot)
    → count_member k ms ≤ 1
    → find_switches k (snapshot_of ms m) ≡ or_given (first_switches k ms) (find_switches k m)
unfolding snapshot_of
find-snapshot_of k [] m h = refl
find-snapshot_of k (x ∷ xs) m h =
    let put = find-set_switches k x.identity (switches_of x) m in
    elim (Bool-cases (text_eq x.identity k)) [
      | inl e ↦ find-snapshot_none k xs _ (ground (arith, h, e)) ∙ (put ∙ rw e refl)
      | inr e ↦
          find-snapshot_of k xs _ (ground (arith, h, e))
          ∙ (ap (or_given (first_switches k xs)) put ∙ rw e refl)
    ]

pub or_given-none : (a : Option Switches) → or_given a none ≡ a
or_given-none none = refl
or_given-none (some f) = refl
