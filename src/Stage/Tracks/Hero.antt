-- ===== src/Stage/Tracks/Hero.antt =====
-- MainStage.tsx: what can be said of the tracks that are shown.
use mathlib.Core.List.{Memᴰ}
use mathlib.Core.List.Memᴰ.{head, tail}
use ivena_meet.Base.{
  if◌then◌else◌, Bool-cases, length, All, All-map, All-take, length-take_le, is_empty, Text,
  text_eq_iff, text_eq_refl, ◌≤◌, ◌≡◌, refl, ap, ◌∙◌, subst, ◌≢◌, ◌⊎◌, inl, inr, Bool, true, false,
  not, ◌&&◌, Option, none, some, List, [], ◌∷◌, arith,
}
use ivena_meet.Stage.Tracks.{
  Publication, Participant, TrackOrPlaceholder, TrackReference, filter, find, is_ingress_identity,
  live_publication, live_video_track, add_live, live_video_tracks, pick_track_ref, of_owner,
  or_option, track_of, speaker_of, pinned_of, pick_preferred_camera_track, has_sid, shown_tracks,
}

abbrev pub IsLive : TrackReference → Type 0
IsLive t = (t.publication.is_muted ≡ false) × (t.publication.has_track ≡ true)

live_publication-IsLive :
    (owner : Text) (p : Option Publication) (ts : List TrackReference)
    → All IsLive ts
    → All IsLive (add_live (live_publication owner p) ts)
live_publication-IsLive owner none ts h = h
live_publication-IsLive owner (some p) ts h = elim (Bool-cases p.is_muted) [
  | inl m ↦ rw m h
  | inr m ↦ elim (Bool-cases p.has_track) [
    | inl t ↦ simp (m, t) ((refl, refl), h)
    | inr t ↦ simp (m, t) h
  ]
]

live_video_tracks-IsLive : (ts : List TrackOrPlaceholder) → All IsLive (live_video_tracks ts)
unfolding live_video_tracks live_video_track
live_video_tracks-IsLive [] = tt
live_video_tracks-IsLive (t ∷ ts) =
    live_publication-IsLive t.owner t.publication (live_video_tracks ts)
      (live_video_tracks-IsLive ts)

filter-All :
    {A : Type 0} (P : A → Type 0) (p : A → Bool) (xs : List A)
    → All P xs
    → All (λ x. P x × (p x ≡ true)) (filter p xs)
filter-All P p [] h = tt
filter-All P p (x ∷ xs) h = elim (Bool-cases (p x)) [
  | inl e ↦ rw e ((h.0, e), filter-All P p xs h.1)
  | inr e ↦ rw e (filter-All P p xs h.1)
]

neither : (a b : Bool) → (not a && not b) ≡ true → (a ≡ false) × (b ≡ false)
neither a b h = ground arith

-- A track of the gallery is live, of a person, and not the preferred camera's.
abbrev pub InGallery : Option TrackReference → TrackReference → Type 0
InGallery hero t = IsLive t × (is_ingress_identity t.owner ≡ false) × (has_sid hero t ≡ false)

-- The gallery has at most six tracks, all of them live, of persons and not the preferred camera's;
-- where a screen is shared, the preferred camera is not on the stage either.
pub shown_tracks-gallery :
    (screens cameras : List TrackOrPlaceholder) (participants : List Participant)
    (pinned : Option Text)
    → let s = shown_tracks screens cameras participants pinned in
      (length s.gallery_tracks ≤ 6)
      × All (InGallery s.hero_camera_track) s.gallery_tracks
      × ((t : TrackReference)
          → pick_track_ref (live_video_tracks screens) ≡ some t
          → s.hero_track ≡ some t)
unfolding shown_tracks
shown_tracks-gallery screens cameras participants pinned =
    let refs = live_video_tracks cameras in
    let hero = pick_preferred_camera_track refs participants pinned in
    let shown = λ (t : TrackReference). not (is_ingress_identity t.owner) && not (has_sid hero t) in
    let kept = filter-All IsLive shown refs (live_video_tracks-IsLive cameras) in
    (
      length-take_le 6 (filter shown refs),
      All-take (InGallery hero) 6 (filter shown refs) (
          All-map _ (InGallery hero)
            (λ t h.
              let n = neither (is_ingress_identity t.owner) (has_sid hero t) h.1 in (h.0, n.0, n.1))
            (filter shown refs) kept),
      λ t h. rw h refl,
    )

picked :
    {A : Type 0} (b : Bool) (u t : A) (rest : Option A)
    → (if b then some u else rest) ≡ some t
    → ((b ≡ true) × (t ≡ u)) ⊎ ((b ≡ false) × (rest ≡ some t))
picked true u t rest h = inl (refl, cc)
picked false u t rest h = inr (refl, h)

find-Mem :
    {A : Type 0} (p : A → Bool) (ts : List A) (t : A)
    → find p ts ≡ some t
    → Memᴰ t ts × (p t ≡ true)
find-Mem p [] t h = cc
find-Mem p (u ∷ us) t h = elim (picked (p u) u t (find p us) h) [
  | inl (e, same_one) ↦ (head same_one, ap p same_one ∙ e)
  | inr (e, further) ↦ let (m, k) = find-Mem p us t further in (tail m, k)
]

find_total :
    {A : Type 0} (p : A → Bool) (ts : List A) (u : A)
    → Memᴰ u ts
    → p u ≡ true
    → (t : A) × (find p ts ≡ some t)
find_total p [] u m h = elim m [ ]
find_total p (v ∷ vs) u (head e) h =
    let k : p v ≡ true = subst (λ x. p x ≡ true) e h in rw k (v, refl)
find_total p (v ∷ vs) u (tail m) h = elim (Bool-cases (p v)) [
  | inl e ↦ rw e (v, refl)
  | inr e ↦ rw e (find_total p vs u m h)
]

or_option_cases :
    (a b : Option TrackReference) (t : TrackReference)
    → or_option a b ≡ some t
    → (a ≡ some t) ⊎ (b ≡ some t)
or_option_cases none b t h = inr h
or_option_cases (some a) b t h = inl h

track_of-Mem :
    (ts : List TrackReference) (identity : Option Text) (t : TrackReference)
    → track_of ts identity ≡ some t
    → Memᴰ t ts
track_of-Mem ts none t h = cc
track_of-Mem ts (some identity) t h = (find-Mem (of_owner identity) ts t h).0

pick_track_ref-Mem :
    (ts : List TrackReference) (t : TrackReference) → pick_track_ref ts ≡ some t → Memᴰ t ts
pick_track_ref-Mem [] t h = cc
pick_track_ref-Mem (u ∷ us) t h = head (cc)

or_option_there :
    (a b : Option TrackReference) {u : TrackReference}
    → b ≡ some u
    → (t : TrackReference) × (or_option a b ≡ some t)
or_option_there none b {u} h = (u, h)
or_option_there (some a) b h = (a, refl)

pick_track_ref_total :
    (ts : List TrackReference) (u : TrackReference)
    → Memᴰ u ts
    → (t : TrackReference) × (pick_track_ref ts ≡ some t)
pick_track_ref_total [] u m = elim m [ ]
pick_track_ref_total (t ∷ ts) u m = (t, refl)

pinned_of_full : (identity : Text) → identity ≢ [] → pinned_of (some identity) ≡ some identity
unfolding is_empty
pinned_of_full [] n = absurd (n refl)
pinned_of_full (c ∷ identity) n = refl

pinned_track :
    (tracks : List TrackReference) (u : TrackReference)
    → Memᴰ u tracks
    → u.owner ≢ []
    → (t : TrackReference) × (track_of tracks (pinned_of (some u.owner)) ≡ some t)
      × (t.owner ≡ u.owner)
pinned_track tracks u m n =
    let (t, e) = find_total (of_owner u.owner) tracks u m (text_eq_refl u.owner) in
    (
      t,
      ap (track_of tracks) (pinned_of_full u.owner n) ∙ e,
      (text_eq_iff t.owner u.owner).0 (find-Mem (of_owner u.owner) tracks t e).1,
    )

-- The preferred camera is one of those at hand, and there is one if any is at hand; it belongs to
-- the pinned identity if that has a camera at hand.
pub pick_preferred_camera_track_lem :
    (tracks : List TrackReference) (participants : List Participant) (pinned : Option Text)
    → let hero = pick_preferred_camera_track tracks participants pinned in
      ((t : TrackReference) → hero ≡ some t → Memᴰ t tracks)
      × ((u : TrackReference) → Memᴰ u tracks → (t : TrackReference) × (hero ≡ some t))
      × ((u : TrackReference)
          → Memᴰ u tracks
          → pinned ≡ some u.owner
          → u.owner ≢ []
          → (t : TrackReference) × (hero ≡ some t) × (t.owner ≡ u.owner))
unfolding pick_preferred_camera_track
pick_preferred_camera_track_lem tracks participants pinned =
    let speaker = track_of tracks (
      speaker_of
        (find (λ p. p.is_speaking && not (is_ingress_identity p.identity)) participants)) in
    let human = find (λ t. not (is_ingress_identity t.owner)) tracks in
    let last = pick_track_ref tracks in
    (
      λ t h. elim (or_option_cases (track_of tracks (pinned_of pinned)) _ t h) [
        | inl e ↦ track_of-Mem tracks _ t e
        | inr k ↦ elim (or_option_cases speaker _ t k) [
          | inl e ↦ track_of-Mem tracks _ t e
          | inr l ↦ elim (or_option_cases human last t l) [
            | inl e ↦ (find-Mem _ tracks t e).0
            | inr e ↦ pick_track_ref-Mem tracks t e
          ]
        ]
      ],
      λ u m.
          let (a, e) = pick_track_ref_total tracks u m in
          let (b, f) = or_option_there human last e in
          let (c, g) = or_option_there speaker _ f in
          or_option_there (track_of tracks (pinned_of pinned)) _ g,
      λ u m h n.
          let (t, e, o) = pinned_track tracks u m n in
          (
            t,
            ap
                  (λ i.
                    or_option (track_of tracks (pinned_of i))
                      (or_option speaker (or_option human last)))
                  h
                ∙ ap (λ x. or_option x (or_option speaker (or_option human last))) e,
            o,
          ),
    )
