-- ===== src/Sidebar.antt =====
-- apps/frontend/src/components/Sidebar.tsx: the timeline of a meeting. Of an item the identifier and
-- the time are left out, which are drawn from the clock.
pub mod LogLines
pub mod Reading
pub mod Snapshots
pub mod Replay
pub mod Retry
use ivena_meet.Base.{
  if◌then◌else◌, length, take, text_eq, trim, is_empty, Text, codes, ℕ, Bool, true, false, not,
  ◌&&◌, Option, none, some, List, [], ◌∷◌, ◌++◌, map,
}
use ivena_meet.Types.{MemberItem}

pub data TimelineKind : Type 0 where
  presence audio video broadcast moderation : TimelineKind

pub record TimelineItem : Type 0 where
  pub kind : TimelineKind
  pub text : Text

-- `appendTimeline`: the latest item first.
unfoldable pub append_timeline : TimelineItem → List TimelineItem → List TimelineItem
append_timeline item prev = take 120 (item ∷ prev)

unfoldable pub append_items : List TimelineItem → List TimelineItem → List TimelineItem
unfolding append_timeline
append_items [] prev = prev
append_items (item ∷ items) prev = append_items items (append_timeline item prev)

-- What is remembered of a member.
pub record Switches : Type 0 where
  pub mic_on : Bool
  pub camera_on : Bool
  pub screen_on : Bool

-- A `Map`: `set` keeps the place of a key that is there.
abbrev pub Snapshot : Type 0
Snapshot = List (Text × Switches)

unfoldable pub find_switches : Text → Snapshot → Option Switches
unfolding text_eq
find_switches k [] = none
find_switches k ((j, f) ∷ m) =
    let later = find_switches k m in if text_eq j k then some f else later

unfoldable pub set_switches : Text → Switches → Snapshot → Snapshot
unfolding text_eq
set_switches k f [] = (k, f) ∷ []
set_switches k f ((j, g) ∷ m) =
    let later = set_switches k f m in if text_eq j k then (j, f) ∷ m else (j, g) ∷ later

abbrev pub switches_of : MemberItem → Switches
switches_of m = record {
  mic_on = m.mic_enabled;
  camera_on = m.camera_enabled;
  screen_on = m.screen_share_enabled;
}

-- `nextSnapshot`
unfoldable pub snapshot_of : List MemberItem → Snapshot → Snapshot
unfolding set_switches
snapshot_of [] m = m
snapshot_of (x ∷ xs) m = snapshot_of xs (set_switches x.identity (switches_of x) m)

-- What the effect on the members tells.
pub data Change : Type 0 where
  came went : Text → Change
  mic_turned camera_turned screen_turned : Text → Bool → Change

abbrev pub on_off : Bool → Text → Text → Text
on_off b s t = if b then s else t

abbrev pub item_of : Change → TimelineItem
item_of (came id) = record { kind = presence; text = id ++ codes " 加入语音" }
item_of (went id) = record { kind = presence; text = id ++ codes " 离开语音" }
item_of (mic_turned id b) = record {
  kind = audio;
  text = id ++ on_off b (codes " 上麦") (codes " 静音");
}
item_of (camera_turned id b) = record {
  kind = video;
  text = id ++ on_off b (codes " 打开摄像头") (codes " 关闭摄像头");
}
item_of (screen_turned id b) = record {
  kind = video;
  text = id ++ on_off b (codes " 开启投屏") (codes " 关闭投屏");
}

abbrev pub one_if : Bool → Change → List Change
one_if b c = if b then c ∷ [] else []

abbrev pub bool_differs : Bool → Bool → Bool
bool_differs true b = not b
bool_differs false b = b

unfoldable pub member_changes : Text → Option Switches → Switches → List Change
member_changes id none f = came id ∷ []
member_changes id (some prev) f =
    one_if (bool_differs prev.mic_on f.mic_on) (mic_turned id f.mic_on)
    ++ (one_if (bool_differs prev.camera_on f.camera_on) (camera_turned id f.camera_on)
        ++ one_if (bool_differs prev.screen_on f.screen_on) (screen_turned id f.screen_on))

-- The two loops.
unfoldable pub changes_of : Snapshot → List MemberItem → List Change
unfolding member_changes find_switches
changes_of prev [] = []
changes_of prev (m ∷ ms) =
    member_changes m.identity (find_switches m.identity prev) (switches_of m) ++ changes_of prev ms

abbrev pub is_some : Option Switches → Bool
is_some none = false
is_some (some f) = true

unfoldable pub departures : Snapshot → Snapshot → List Change
unfolding find_switches
departures [] next = []
departures ((id, f) ∷ prev) next =
    let rest = departures prev next in
    if is_some (find_switches id next) then rest else went id ∷ rest

pub record Timeline : Type 0 where
  pub items : List TimelineItem
  pub snapshot : Snapshot
  pub snapshot_ready : Bool
  pub last_log_index : ℕ
  pub last_ingress_id : Text

-- The effect on the session.
unfoldable pub session_effect : Bool → List Text → Timeline → Timeline
session_effect true logs t = record t { last_log_index = length logs }
session_effect false logs t = record t {
  last_log_index = length logs;
  last_ingress_id = [];
  snapshot = [];
  snapshot_ready = false;
  items = [];
}

abbrev pub told : List Change → List TimelineItem
told changes = map item_of changes

-- The effect on the members.
unfoldable pub members_effect : Bool → List MemberItem → Timeline → Timeline
unfolding snapshot_of changes_of departures append_items
members_effect false members t = t
members_effect true members t =
    let next = snapshot_of members [] in
    if not t.snapshot_ready then record t { snapshot = next; snapshot_ready = true } else record t {
      items =
          append_items (told (changes_of t.snapshot members ++ departures t.snapshot next)) t.items;
      snapshot = next;
    }

-- The effect on the broadcast.
unfoldable pub ingress_effect : Bool → Text → Text → Timeline → Timeline
unfolding append_timeline is_empty
ingress_effect false ingress_id user_name t = t
ingress_effect true ingress_id user_name t =
    let prev = trim t.last_ingress_id in
    let next = trim ingress_id in
    let said = λ (text : Text).
      append_timeline (record { kind = broadcast; text = user_name ++ text }) t.items in
    record t {
      items =
          if is_empty prev && not (is_empty next)
          then said (codes " 开始广播")
          else if not (is_empty prev) && is_empty next
          then said (codes " 停止广播")
          else t.items;
      last_ingress_id = next;
    }
