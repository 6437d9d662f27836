-- ===== src/Sidebar/Replay.antt =====
-- Sidebar.tsx: the items that the effect on the members adds tell a reader what has changed.
use ivena_meet.Sidebar.Reading.{Heard, newcomer, known, read_items, hear, read_item-item_of}
use ivena_meet.Sidebar.Snapshots.{count_member, first_switches, find-snapshot_of, or_given-none}
use ivena_meet.Base.{
  if◌then◌else◌, Bool-cases, length, take-short, text_eq, Text, text_eq_iff, text_eq_refl, ◌≤◌, ◌<◌,
  ◌≡◌, refl, ap, ◌∙◌, subst, inl, inr, true, false, Option, none, some, List, [], ◌∷◌, ◌++◌, arith,
}
use ivena_meet.Types.{MemberItem}
use ivena_meet.Sidebar.{
  TimelineItem, append_timeline, append_items, Switches, Snapshot, find_switches, switches_of,
  snapshot_of, Change, went, item_of, member_changes, changes_of, is_some, departures, Timeline,
  told, members_effect,
}

-- The changes one after another, as they are told of one member.
abbrev hears : Text → List Change → Option Heard → Option Heard
hears k [] x = x
hears k (c ∷ cs) x = hears k cs (hear k c x)

hears-append :
    (k : Text) (cs ds : List Change) (x : Option Heard)
    → hears k (cs ++ ds) x ≡ hears k ds (hears k cs x)
hears-append k [] ds x = refl
hears-append k (c ∷ cs) ds x = hears-append k cs ds (hear k c x)

-- What is known of one who is there: all, or nothing but that he is there.
abbrev pub heard_of : Option Switches → Option Heard
heard_of none = none
heard_of (some f) = some (known f)

abbrev pub heard_after : Option Switches → Option Switches → Option Heard
heard_after prev none = none
heard_after none (some f) = some newcomer
heard_after (some prev) (some f) = some (known f)

member_changes_self :
    (id : Text) (prev : Option Switches) (f : Switches)
    → hears id (member_changes id prev f) (heard_of prev) ≡ heard_after prev (some f)
unfolding member_changes
member_changes_self id none f = rw (text_eq_refl id) refl
member_changes_self id (some prev) f = ground (arith, text_eq_refl id)

member_changes_other :
    (id k : Text) (prev : Option Switches) (f : Switches) (x : Option Heard)
    → text_eq id k ≡ false
    → hears k (member_changes id prev f) x ≡ x
unfolding member_changes
member_changes_other id k none f x h = rw h refl
member_changes_other id k (some prev) f x h = ground (arith, h)

changes_of_none :
    (k : Text) (prev : Snapshot) (ms : List MemberItem) (x : Option Heard)
    → count_member k ms ≡ 0
    → hears k (changes_of prev ms) x ≡ x
unfolding changes_of
changes_of_none k prev [] x h = refl
changes_of_none k prev (m ∷ ms) x h =
    let now = member_changes m.identity (find_switches m.identity prev) (switches_of m) in
    hears-append k now (changes_of prev ms) x
    ∙ (changes_of_none k prev ms (hears k now x) (ground (arith, h))
        ∙ member_changes_other m.identity k _ (switches_of m) x (ground (arith, h)))

-- One who is not among the members is told of by the departures only.
abbrev heard_until : Option Switches → Option Switches → Option Heard
heard_until prev none = heard_of prev
heard_until prev (some f) = heard_after prev (some f)

hears-changes_of :
    (k : Text) (prev : Snapshot) (ms : List MemberItem)
    → count_member k ms ≤ 1
    → hears k (changes_of prev ms) (heard_of (find_switches k prev))
      ≡ heard_until (find_switches k prev) (first_switches k ms)
unfolding changes_of
hears-changes_of k prev [] u = refl
hears-changes_of k prev (m ∷ ms) u =
    let now = member_changes m.identity (find_switches m.identity prev) (switches_of m) in
    let before = heard_of (find_switches k prev) in
    let split = hears-append k now (changes_of prev ms) before in
    elim (Bool-cases (text_eq m.identity k)) [
      | inl e ↦
          let i : m.identity ≡ k = (text_eq_iff m.identity k).0 e in
          split
          ∙ (changes_of_none k prev ms (hears k now before) (ground (arith, u, e))
              ∙ (subst
                    (λ j.
                      hears j now (heard_of (find_switches j prev))
                      ≡ heard_after (find_switches j prev) (some (switches_of m)))
                    i
                    (member_changes_self m.identity (find_switches m.identity prev) (switches_of m))
                  ∙ rw e refl))
      | inr e ↦
          split
          ∙ (ap (hears k (changes_of prev ms))
                (member_changes_other m.identity k _ (switches_of m) before e)
              ∙ (hears-changes_of k prev ms (ground (arith, u, e)) ∙ rw e refl))
    ]

hears-departures :
    (k : Text) (prev next : Snapshot) (x : Option Heard)
    → hears k (departures prev next) x ≡ (
        if is_some (find_switches k next)
        then x
        else if is_some (find_switches k prev)
        then none
        else x)
unfolding departures find_switches
hears-departures k [] next x = ground arith
hears-departures k ((id, f) ∷ prev) next x = elim (Bool-cases (is_some (find_switches id next))) [
  | inl e ↦ rw e (ground (arith, e, hears-departures k prev next x, text_eq_iff id k))
  | inr e ↦
      rw e (ground (arith, e, hears-departures k prev next (hear k (went id) x), text_eq_iff id k))
]

append_timeline-room :
    (item : TimelineItem) (items : List TimelineItem)
    → length (append_timeline item items) < 120
    → append_timeline item items ≡ item ∷ items
unfolding append_timeline
append_timeline-room item items h = take-short 120 (item ∷ items) h

append_items-room :
    (cs : List Change) (items : List TimelineItem)
    → length (append_items (told cs) items) < 120
    → length items < 120
unfolding append_items append_timeline
append_items-room [] items h = h
append_items-room (c ∷ cs) items h =
    let room = append_items-room cs (append_timeline (item_of c) items) h in
    let longer : length (item_of c ∷ items) < 120 =
      subst (λ (l : List TimelineItem). length l < 120)
        (append_timeline-room (item_of c) items room) room in
    omega (arith, longer)

-- A reader of the items hears the changes that they were made of.
read_items-append_items :
    (k : Text) (cs : List Change) (items : List TimelineItem) (x : Option Heard)
    → length (append_items (told cs) items) < 120
    → read_items k (append_items (told cs) items) x ≡ hears k cs (read_items k items x)
unfolding append_items append_timeline
read_items-append_items k [] items x h = refl
read_items-append_items k (c ∷ cs) items x h =
    let e = append_timeline-room (item_of c) items (append_items-room cs _ h) in
    read_items-append_items k cs (append_timeline (item_of c) items) x h
    ∙ (ap (λ l. hears k cs (read_items k l x)) e
        ∙ ap (hears k cs) (read_item-item_of k c (read_items k items x)))

hears-members :
    (k : Text) (prev : Snapshot) (members : List MemberItem)
    → count_member k members ≤ 1
    → let next = snapshot_of members [] in
      hears k (changes_of prev members ++ departures prev next) (heard_of (find_switches k prev))
      ≡ heard_after (find_switches k prev) (first_switches k members)
unfolding find_switches
hears-members k prev members u =
    let next = snapshot_of members [] in
    let there = find-snapshot_of k members [] u in
    let mid = hears-changes_of k prev members u in
    hears-append k (changes_of prev members) (departures prev next)
      (heard_of (find_switches k prev))
    ∙ (hears-departures k prev next _ ∙ ground (arith, there, mid))

abbrev changes_told : List MemberItem → Timeline → List Change
changes_told members t =
    changes_of t.snapshot members ++ departures t.snapshot (snapshot_of members [])

members_effect-ready :
    (members : List MemberItem) (t : Timeline)
    → t.snapshot_ready ≡ true
    → members_effect true members t ≡ record t {
      items = append_items (told (changes_told members t)) t.items;
      snapshot = snapshot_of members [];
    }
unfolding members_effect
members_effect-ready members t ready = rw ready refl

-- The timeline has read the members before and is not filled by this effect, and no identity stands
-- twice among the members. A reader of the items' kinds and texts who knew of a member what the
-- effect remembered knows afterwards whether the member is there, and of one who was there before
-- all three switches; of one who has come the items tell only that. The effect then remembers the
-- members' switches.
pub read_items-members_effect :
    (k : Text) (members : List MemberItem) (t : Timeline) (x : Option Heard)
    → ((j : Text) → count_member j members ≤ 1)
    → t.snapshot_ready ≡ true
    → length (members_effect true members t).items < 120
    → read_items k t.items x ≡ heard_of (find_switches k t.snapshot)
    → let after = members_effect true members t in
      (read_items k after.items x
        ≡ heard_after (find_switches k t.snapshot) (first_switches k members))
      × (find_switches k after.snapshot ≡ first_switches k members)
unfolding find_switches
read_items-members_effect k members t x u ready room h =
    let cs = changes_told members t in
    let e = members_effect-ready members t ready in
    let fits = subst (λ (s : Timeline). length s.items < 120) e room in
    rw e (
      (read_items-append_items k cs t.items x fits
          ∙ (ap (hears k cs) h ∙ hears-members k t.snapshot members (u k))),
      (find-snapshot_of k members [] (u k) ∙ or_given-none (first_switches k members)),
    )
