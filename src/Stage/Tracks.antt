-- ===== src/Stage/Tracks.antt =====
-- MainStage.tsx: which tracks the stage shows, and the members that it reports. Participants,
-- publications and tracks come from the LiveKit client; here are the fields that the source reads.
pub mod Hero
use ivena_meet.Base.{
  if◌then◌else◌, take, text_eq, ends_with, is_empty, Text, codes, Bool, true, false, not, ◌&&◌,
  ◌||◌, Option, none, some, List, [], ◌∷◌,
}
use ivena_meet.Types.{MemberItem}

pub data Source : Type 0 where
  camera_source microphone_source screen_share_source other_source : Source

abbrev pub source_eq : Source → Source → Bool
source_eq camera_source camera_source = true
source_eq microphone_source microphone_source = true
source_eq screen_share_source screen_share_source = true
source_eq other_source other_source = true
source_eq _ _ = false

pub record Publication : Type 0 where
  pub source : Source
  pub is_muted : Bool
  pub track_sid : Text
  pub has_track : Bool

pub record Participant : Type 0 where
  pub identity : Text
  pub is_local : Bool
  pub is_speaking : Bool
  pub track_publications : List Publication

-- A track of a participant, or a placeholder for one.
pub record TrackOrPlaceholder : Type 0 where
  pub owner : Text
  pub publication : Option Publication

pub record TrackReference : Type 0 where
  pub owner : Text
  pub publication : Publication

module _ {ℓ} {A : Type ℓ} where
  abbrev pub filter : (A → Bool) → List A → List A
  filter p [] = []
  filter p (x ∷ xs) = let rest = filter p xs in if p x then x ∷ rest else rest

  abbrev pub find : (A → Bool) → List A → Option A
  find p [] = none
  find p (x ∷ xs) = let later = find p xs in if p x then some x else later

  abbrev pub some_item : (A → Bool) → List A → Bool
  some_item p [] = false
  some_item p (x ∷ xs) = p x || some_item p xs

unfoldable pub is_ingress_identity : Text → Bool
unfolding ends_with
is_ingress_identity identity = ends_with identity (codes "__ingress")

-- `isLiveVideoTrack` as a filter: what it lets through has a publication.
abbrev pub live_publication : Text → Option Publication → Option TrackReference
live_publication owner none = none
live_publication owner (some p) =
    if p.is_muted
    then none
    else if p.has_track
    then some (record { owner = owner; publication = p })
    else none

unfoldable pub live_video_track : TrackOrPlaceholder → Option TrackReference
live_video_track t = live_publication t.owner t.publication

abbrev pub add_live : Option TrackReference → List TrackReference → List TrackReference
add_live none ts = ts
add_live (some t) ts = t ∷ ts

unfoldable pub live_video_tracks : List TrackOrPlaceholder → List TrackReference
unfolding live_video_track
live_video_tracks [] = []
live_video_tracks (t ∷ ts) = add_live (live_video_track t) (live_video_tracks ts)

-- `tracks.find(isTrackReference)`, on tracks that all are references.
abbrev pub pick_track_ref : List TrackReference → Option TrackReference
pick_track_ref [] = none
pick_track_ref (t ∷ ts) = some t

unfoldable pub participant_source_enabled : List Publication → Source → Bool
participant_source_enabled [] source = false
participant_source_enabled (p ∷ ps) source =
    let later = participant_source_enabled ps source in
    if source_eq p.source source then not p.is_muted else later

abbrev pub of_owner : Text → TrackReference → Bool
of_owner identity t = text_eq t.owner identity

abbrev pub or_option : Option TrackReference → Option TrackReference → Option TrackReference
or_option none b = b
or_option (some a) b = some a

-- The track of a person who is given, if there is one.
abbrev pub track_of : List TrackReference → Option Text → Option TrackReference
track_of tracks none = none
track_of tracks (some identity) = find (of_owner identity) tracks

abbrev pub speaker_of : Option Participant → Option Text
speaker_of none = none
speaker_of (some p) = some p.identity

-- A pinned identity that is empty counts as none.
abbrev pub pinned_of : Option Text → Option Text
pinned_of none = none
pinned_of (some identity) = if is_empty identity then none else some identity

unfoldable pub pick_preferred_camera_track :
    List TrackReference → List Participant → Option Text → Option TrackReference
unfolding is_ingress_identity is_empty text_eq
pick_preferred_camera_track tracks participants pinned =
    or_option (track_of tracks (pinned_of pinned)) (
      or_option
        (track_of tracks (
          speaker_of
            (find (λ p. p.is_speaking && not (is_ingress_identity p.identity)) participants)))
        (or_option (find (λ t. not (is_ingress_identity t.owner)) tracks) (pick_track_ref tracks)))

-- What a render shows of the tracks at hand.
pub record Shown : Type 0 where
  pub hero_camera_track : Option TrackReference
  pub hero_track : Option TrackReference
  pub gallery_tracks : List TrackReference

abbrev pub has_sid : Option TrackReference → TrackReference → Bool
has_sid none t = false
has_sid (some h) t = text_eq t.publication.track_sid h.publication.track_sid

unfoldable pub shown_tracks :
    List TrackOrPlaceholder → List TrackOrPlaceholder → List Participant → Option Text → Shown
unfolding live_video_tracks pick_preferred_camera_track is_ingress_identity text_eq
shown_tracks screens cameras participants pinned =
    let refs = live_video_tracks cameras in
    let hero_camera = pick_preferred_camera_track refs participants pinned in
    record {
      hero_camera_track = hero_camera;
      hero_track = or_option (pick_track_ref (live_video_tracks screens)) hero_camera;
      gallery_tracks =
          take 6
            (filter (λ t. not (is_ingress_identity t.owner) && not (has_sid hero_camera t)) refs);
    }

abbrev pub is_there : Option TrackReference → Bool
is_there none = false
is_there (some t) = true

-- `hasStageMedia`
abbrev pub has_stage_media : Shown → Bool
has_stage_media s = is_there s.hero_track

-- The effect on the pinned identity.
unfoldable pub keep_pinned : List TrackReference → Option Text → Option Text
unfolding is_empty text_eq
keep_pinned tracks none = none
keep_pinned tracks (some identity) =
    if is_empty identity
    then some identity
    else if some_item (of_owner identity) tracks
    then some identity
    else none

-- What `onMembersChange` is called with.
unfoldable pub reported_members : List Participant → List MemberItem
unfolding is_ingress_identity participant_source_enabled
reported_members [] = []
reported_members (p ∷ ps) =
    let rest = reported_members ps in
    if is_ingress_identity p.identity
    then rest
    else record {
      identity = p.identity;
      is_local = p.is_local;
      speaking = p.is_speaking;
      mic_enabled = participant_source_enabled p.track_publications microphone_source;
      camera_enabled = participant_source_enabled p.track_publications camera_source;
      screen_share_enabled = participant_source_enabled p.track_publications screen_share_source;
    }
      ∷ rest
