-- ===== src/Sidebar/LogLines/Told.antt =====
-- Sidebar.tsx: which lines of the log the timeline understands.
use ivena_meet.Base.{
  ◌==◌, if◌then◌else◌, All, starts_with, is_space, trim_start, Text, codes, ℕ, ◌≡◌, refl, ap, ◌∙◌,
  Bool, true, false, Option, none, some, [], ◌∷◌, ◌++◌, arith,
}
use ivena_meet.Sidebar.LogLines.{
  is_newline, until_bracket, strip_time, capture, spaced_name, after_word, match_word,
  match_permission, moderated, permission_text, permission_item, item_of_text, item_of_line,
}
use ivena_meet.Types.{StageFeature, camera, screen_share, SetMemberMediaPermissionResp}
use ivena_meet.Layout.Permission.{name_of_feature, stage_permission_line}
use ivena_meet.Stage.Scene.{by_feature}
use ivena_meet.Sidebar.{TimelineItem}

-- A line as `pushLog` writes it.
abbrev pub stamped : Text → Text → Text
stamped time line = b'[' ∷ time ++ b']' ∷ 32 ∷ line

-- A time that is not empty and has no bracket in it.
abbrev pub IsTime : Text → Type 0
IsTime [] = ⊥
IsTime (c ∷ s) = All (λ d. (d == b']') ≡ false) (c ∷ s)

-- A name that is not empty and has no white space in it.
abbrev pub IsName : Text → Type 0
IsName [] = ⊥
IsName (c ∷ s) = All (λ d. is_space d ≡ false) (c ∷ s)

until_bracket-append :
    (s r : Text) → All (λ d. (d == b']') ≡ false) s → until_bracket (s ++ b']' ∷ r) ≡ some r
until_bracket-append [] r h = refl
until_bracket-append (c ∷ s) r h = rw h.0 (until_bracket-append s r h.1)

strip_time-stamped :
    (time line : Text) → IsTime time → strip_time (stamped time line) ≡ trim_start (32 ∷ line)
unfolding strip_time
strip_time-stamped [] line h = ground arith
strip_time-stamped (c ∷ s) line h = rw (h.0, until_bracket-append s (32 ∷ line) h.1) refl

not_newline : (c : ℕ) → is_space c ≡ false → is_newline c ≡ false
unfolding is_space
not_newline c h = ground arith

capture_lem :
    (c : ℕ) (s rest : Text)
    → All (λ d. is_space d ≡ false) (c ∷ s)
    → capture (c ∷ s ++ 32 ∷ b'(' ∷ rest) ≡ some (c ∷ s)
unfolding capture is_space trim_start
capture_lem c [] rest h = rw (not_newline c h.0) refl
capture_lem c (d ∷ s) rest h = rw (not_newline c h.0, h.1.0, capture_lem d s rest h.1) refl

spaced_name_lem :
    (name rest : Text) → IsName name → spaced_name (32 ∷ name ++ 32 ∷ b'(' ∷ rest) ≡ some name
unfolding spaced_name is_space
spaced_name_lem [] rest h = ground arith
spaced_name_lem (c ∷ s) rest h = rw (h.0, capture_lem c s rest h) refl

-- What begins with a name does not begin with two words.
starts_with-name :
    (p q s r : Text)
    → All (λ d. is_space d ≡ false) s
    → All (λ d. is_space d ≡ false) p
    → starts_with (s ++ 32 ∷ b'(' ∷ r) (p ++ 32 ∷ b'a' ∷ q) ≡ false
unfolding starts_with is_space
starts_with-name [] q [] r h k = refl
starts_with-name (d ∷ p) q [] r h k = ground (arith, k.0)
starts_with-name [] q (c ∷ s) r h k = ground (arith, h.0)
starts_with-name (d ∷ p) q (c ∷ s) r h k = ground (arith, starts_with-name p q s r h.1 k.1)

name_spaces : (name : Text) → IsName name → All (λ d. is_space d ≡ false) name
name_spaces [] h = ground arith
name_spaces (c ∷ s) h = h

not_all :
    (name rest : Text)
    → IsName name
    → starts_with (name ++ 32 ∷ b'(' ∷ rest) (codes "all applied") ≡ false
unfolding is_space
not_all name rest h =
    starts_with-name (codes "all") (codes "pplied") name rest (name_spaces name h)
      (refl, (refl, (refl, tt)))

-- The shapes of the lines about one member, `rest` being what follows the bracket.
abbrev pub mute_line : Bool → Text → Text → Text
mute_line muted name rest =
    (if muted then codes "mute " else codes "unmute ") ++ (name ++ (codes " (" ++ rest))

abbrev pub permission_line : Bool → StageFeature → Text → Text → Text
permission_line enabled feature name rest =
    (if enabled then codes "allow " else codes "deny ")
    ++ (name_of_feature feature ++ (codes " " ++ (name ++ (codes " (" ++ rest))))

pub item_of_text-mute :
    (muted : Bool) (name rest : Text)
    → IsName name
    → item_of_text (mute_line muted name rest)
      ≡ some (moderated ((if muted then codes "主持人静音 " else codes "主持人解除静音 ") ++ name))
unfolding item_of_text match_word after_word starts_with
item_of_text-mute true name rest h = rw (not_all name rest h, spaced_name_lem name rest h) refl
item_of_text-mute false name rest h = rw (not_all name rest h, spaced_name_lem name rest h) refl

pub item_of_text-permission :
    (enabled : Bool) (feature : StageFeature) (name rest : Text)
    → IsName name
    → item_of_text (permission_line enabled feature name rest)
      ≡ some (
          moderated (
            permission_text
              (if enabled then codes "允许" else codes "关闭")
              (by_feature feature (codes "摄像头") (codes "投屏"))
              name))
unfolding item_of_text permission_item match_permission match_word after_word starts_with is_space
    trim_start
item_of_text-permission true camera name rest h = rw (spaced_name_lem name rest h) refl
item_of_text-permission true screen_share name rest h = rw (spaced_name_lem name rest h) refl
item_of_text-permission false camera name rest h = rw (spaced_name_lem name rest h) refl
item_of_text-permission false screen_share name rest h = rw (spaced_name_lem name rest h) refl

pub item_of_text-stage_permission :
    (target : Text) (feature : StageFeature) (enabled : Bool) (res : SetMemberMediaPermissionResp)
    → item_of_text (stage_permission_line target feature enabled res) ≡ none
unfolding item_of_text permission_item match_permission match_word after_word starts_with
    stage_permission_line
item_of_text-stage_permission target feature enabled res = refl

pub trim_mute :
    (muted : Bool) (name rest : Text)
    → trim_start (32 ∷ mute_line muted name rest) ≡ mute_line muted name rest
unfolding trim_start is_space
trim_mute true name rest = refl
trim_mute false name rest = refl

pub trim_permission :
    (enabled : Bool) (feature : StageFeature) (name rest : Text)
    → trim_start (32 ∷ permission_line enabled feature name rest)
      ≡ permission_line enabled feature name rest
unfolding trim_start is_space
trim_permission true feature name rest = refl
trim_permission false feature name rest = refl

pub trim_stage_permission :
    (target : Text) (feature : StageFeature) (enabled : Bool) (res : SetMemberMediaPermissionResp)
    → trim_start (32 ∷ stage_permission_line target feature enabled res)
      ≡ stage_permission_line target feature enabled res
unfolding trim_start is_space stage_permission_line
trim_stage_permission target feature enabled res = refl

pub line_lem :
    (time line : Text) (r : Option TimelineItem)
    → IsTime time
    → trim_start (32 ∷ line) ≡ line
    → item_of_text line ≡ r
    → item_of_line (stamped time line) ≡ r
unfolding item_of_line
line_lem time line r h t q = ap item_of_text (strip_time-stamped time line h ∙ t) ∙ q
