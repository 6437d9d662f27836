-- ===== src/Sidebar/LogLines.antt =====
-- Sidebar.tsx: the effect on the log, which reads lines that other components wrote. A regular
-- expression is a function that takes the longest run of white space first and the shortest name.
pub mod Told
pub mod Hooks
use ivena_meet.Base.{
  leb, ◌==◌, if◌then◌else◌, length, drop, starts_with, is_space, trim_start, Text, codes, ℕ, ◌+◌,
  Bool, true, false, not, ◌&&◌, ◌||◌, Option, none, some, List, [], ◌∷◌, ◌++◌,
}
use ivena_meet.Sidebar.{moderation, TimelineItem, append_timeline, Timeline}

-- What `.` does not match.
abbrev pub is_newline : ℕ → Bool
is_newline c = (c == 10) || ((c == 13) || ((c == 0x2028) || (c == 0x2029)))

-- `raw.replace(/^\[[^\]]+\]\s*/, "")`
abbrev pub until_bracket : Text → Option Text
until_bracket [] = none
until_bracket (c ∷ s) = let rest = until_bracket s in if c == b']' then some s else rest

abbrev or_text : Option Text → Text → Text
or_text none d = d
or_text (some s) d = s

unfoldable pub strip_time : Text → Text
unfolding trim_start
strip_time [] = []
strip_time (c ∷ []) = c ∷ []
strip_time (c ∷ d ∷ s) =
    if (c == b'[') && not (d == b']')
    then elim (until_bracket s) [ none ↦ c ∷ d ∷ s | some rest ↦ trim_start rest ]
    else c ∷ d ∷ s

-- `\s+\(`
abbrev opens : Text → Bool
opens [] = false
opens (c ∷ s) = (c == b'(')

abbrev pub spaces_paren : Text → Bool
spaces_paren [] = false
spaces_paren (c ∷ s) = is_space c && opens (trim_start s)

-- `(.+?)\s+\(`
unfoldable pub capture : Text → Option Text
unfolding is_space trim_start
capture [] = none
capture (c ∷ s) =
    let rest = capture s in
    if is_newline c
    then none
    else if spaces_paren s
    then some (c ∷ [])
    else (elim rest [ none ↦ none | some name ↦ some (c ∷ name) ])

abbrev pub or_name : Option Text → Option Text → Option Text
or_name none b = b
or_name (some a) b = some a

-- `\s+(.+?)\s+\(`
unfoldable pub spaced_name : Text → Option Text
unfolding capture is_space
spaced_name [] = none
spaced_name (c ∷ s) =
    let more = spaced_name s in if is_space c then or_name more (capture s) else none

-- The letters of a pattern with the flag `i`: only ASCII letters fold onto them.
abbrev pub lower : ℕ → ℕ
lower c = if leb b'A' c && leb c b'Z' then c + 32 else c

unfoldable pub after_word : Text → Text → Option Text
after_word [] s = some s
after_word (d ∷ p) [] = none
after_word (d ∷ p) (c ∷ s) = let rest = after_word p s in if lower c == d then rest else none

abbrev pub and_name : Option Text → Option Text
and_name none = none
and_name (some s) = spaced_name s

-- `/^mute\s+(.+?)\s+\(/i` and the like.
unfoldable pub match_word : Text → Text → Option Text
unfolding after_word spaced_name
match_word word s = and_name (after_word word s)

abbrev skip_spaces : Option Text → Option Text
skip_spaces none = none
skip_spaces (some []) = none
skip_spaces (some (c ∷ s)) = if is_space c then some (trim_start s) else none

abbrev match_in : Text → Option Text → Option Text
match_in word none = none
match_in word (some s) = match_word word s

-- `^allow\s+camera\s+(.+?)\s+\(` and its three variants.
unfoldable pub match_permission : Text → Text → Text → Option Text
unfolding match_word after_word is_space trim_start
match_permission action feature s = match_in feature (skip_spaces (after_word action s))

abbrev pub moderated : Text → TimelineItem
moderated text = record { kind = moderation; text = text }

abbrev named : (Text → Text) → Option Text → Option TimelineItem
named f none = none
named f (some name) = some (moderated (f name))

abbrev or_item : Option TimelineItem → Option TimelineItem → Option TimelineItem
or_item none b = b
or_item (some a) b = some a

abbrev pub permission_text : Text → Text → Text → Text
permission_text action feature name =
    codes "主持人" ++ (action ++ (codes " " ++ (name ++ (codes " 的" ++ feature))))

unfoldable pub permission_item : Text → Option TimelineItem
unfolding match_permission
permission_item s =
    or_item
      (named (permission_text (codes "允许") (codes "摄像头"))
        (match_permission (codes "allow") (codes "camera") s))
      (or_item
        (named (permission_text (codes "允许") (codes "投屏"))
          (match_permission (codes "allow") (codes "screen_share") s))
        (or_item
          (named (permission_text (codes "关闭") (codes "摄像头"))
            (match_permission (codes "deny") (codes "camera") s))
          (named (permission_text (codes "关闭") (codes "投屏"))
            (match_permission (codes "deny") (codes "screen_share") s))))

-- What one line of the log says, with its time in front taken off.
unfoldable pub item_of_text : Text → Option TimelineItem
unfolding permission_item match_word starts_with
item_of_text s =
    if starts_with s (codes "mute all applied")
    then some (moderated (codes "主持人开启全员静音"))
    else if starts_with s (codes "unmute all applied")
    then some (moderated (codes "主持人解除全员静音"))
    else or_item (named (λ name. codes "主持人静音 " ++ name) (match_word (codes "mute") s)) (
        or_item (named (λ name. codes "主持人解除静音 " ++ name) (match_word (codes "unmute") s))
          (permission_item s))

unfoldable pub item_of_line : Text → Option TimelineItem
unfolding item_of_text strip_time
item_of_line raw = item_of_text (strip_time raw)

abbrev pub append_some : Option TimelineItem → List TimelineItem → List TimelineItem
append_some none items = items
append_some (some item) items = append_timeline item items

unfoldable pub tell_lines : List Text → List TimelineItem → List TimelineItem
unfolding item_of_line append_timeline
tell_lines [] items = items
tell_lines (line ∷ lines) items = tell_lines lines (append_some (item_of_line line) items)

-- The effect on the log.
unfoldable pub logs_effect : Bool → List Text → Timeline → Timeline
unfolding tell_lines
logs_effect false logs t = t
logs_effect true logs t = if leb (length logs) t.last_log_index then t else record t {
  items = tell_lines (drop t.last_log_index logs) t.items;
  last_log_index = length logs;
}
