-- ===== src/Sidebar/Reading.antt =====
-- Sidebar.tsx: a reader of the timeline, who follows one member by the kinds and texts of the items.
use mathlib.Core.List.{reverse, reverse-append, append_cancel_right}
use ivena_meet.Base.{
  ◌==◌, if◌then◌else◌, Bool-cases, text_eq, Text, codes, text_eq_iff, text_eq_refl, ◌≡◌, refl, sym,
  ap, ◌∙◌, subst, ◌≢◌, inl, inr, Bool, true, false, Option, none, some, List, [], ◌∷◌, ◌++◌, arith,
}
use ivena_meet.Sidebar.{
  TimelineKind, presence, audio, video, broadcast, moderation, TimelineItem, Switches, Change, came,
  went, mic_turned, camera_turned, screen_turned, item_of,
}

-- What is known of a member who is there: a switch is `none` until an item tells of it.
pub record Heard : Type 0 where
  pub mic_heard : Option Bool
  pub camera_heard : Option Bool
  pub screen_heard : Option Bool

abbrev pub newcomer : Heard
newcomer = record { mic_heard = none; camera_heard = none; screen_heard = none }

abbrev pub known : Switches → Heard
known f = record {
  mic_heard = some f.mic_on;
  camera_heard = some f.camera_on;
  screen_heard = some f.screen_on;
}

abbrev pub hears_mic : Bool → Option Heard → Option Heard
hears_mic b none = none
hears_mic b (some h) = some (record h { mic_heard = some b })

abbrev pub hears_camera : Bool → Option Heard → Option Heard
hears_camera b none = none
hears_camera b (some h) = some (record h { camera_heard = some b })

abbrev pub hears_screen : Bool → Option Heard → Option Heard
hears_screen b none = none
hears_screen b (some h) = some (record h { screen_heard = some b })

-- The item says this of the member.
abbrev says : Text → Text → Text → Bool
says k what text = text_eq text (k ++ what)

-- What an item makes known of a member; `none` stands for one who is not there.
unfoldable pub read_text : TimelineKind → Text → Text → Option Heard → Option Heard
unfolding text_eq
read_text presence k text x =
    if says k (codes " 加入语音") text
    then some newcomer
    else if says k (codes " 离开语音") text
    then none
    else x
read_text audio k text x =
    if says k (codes " 上麦") text
    then hears_mic true x
    else if says k (codes " 静音") text
    then hears_mic false x
    else x
read_text video k text x =
    if says k (codes " 打开摄像头") text
    then hears_camera true x
    else if says k (codes " 关闭摄像头") text
    then hears_camera false x
    else if says k (codes " 开启投屏") text
    then hears_screen true x
    else if says k (codes " 关闭投屏") text
    then hears_screen false x
    else x
read_text broadcast k text x = x
read_text moderation k text x = x

abbrev pub read_item : Text → TimelineItem → Option Heard → Option Heard
read_item k item x = read_text item.kind k item.text x

-- The timeline shows the latest item first.
abbrev pub read_items : Text → List TimelineItem → Option Heard → Option Heard
read_items k [] x = x
read_items k (item ∷ items) x = read_item k item (read_items k items x)

-- Two endings part before either ends.
abbrev clash : Text → Text → Bool
clash [] t = false
clash (c ∷ s) [] = false
clash (c ∷ s) (d ∷ t) = let rest = clash s t in if c == d then rest else true

clash-ne : (s t x y : Text) → clash s t ≡ true → s ++ x ≢ t ++ y
clash-ne [] t x y h e = ground (arith, h)
clash-ne (c ∷ s) [] x y h e = ground (arith, h)
clash-ne (c ∷ s) (d ∷ t) x y h e =
    let c_d : c ≡ d = cc in
    let s_t : s ++ x ≡ t ++ y = cc in clash-ne s t x y (ground (arith, h, c_d)) s_t

says_other : (id k s t : Text) → clash (reverse s) (reverse t) ≡ true → says k t (id ++ s) ≡ false
says_other id k s t h = elim (Bool-cases (text_eq (id ++ s) (k ++ t))) [
  | inr e ↦ e
  | inl e ↦ absurd (
      clash-ne (reverse s) (reverse t) (reverse id) (reverse k) h (
        sym (reverse-append id s)
        ∙ (ap reverse ((text_eq_iff (id ++ s) (k ++ t)).0 e) ∙ reverse-append k t)))
]

text_eq-append : (id k s : Text) → text_eq (id ++ s) (k ++ s) ≡ true → id ≡ k
text_eq-append id k s h = append_cancel_right id k s ((text_eq_iff (id ++ s) (k ++ s)).0 h)

says_same : (id k s : Text) → says k s (id ++ s) ≡ text_eq id k
says_same id k s = elim (Bool-cases (text_eq id k)) [
  | inl e ↦
      let i : id ≡ k = (text_eq_iff id k).0 e in
      subst (λ j. says j s (id ++ s) ≡ text_eq id j) i
        (text_eq_refl (id ++ s) ∙ sym (text_eq_refl id))
  | inr e ↦ elim (Bool-cases (text_eq (id ++ s) (k ++ s))) [
    | inr f ↦ f ∙ sym e
    | inl f ↦ absurd (ground (arith, e, text_eq_iff id k, text_eq-append id k s f))
  ]
]

-- What a change makes known of a member.
abbrev pub hear : Text → Change → Option Heard → Option Heard
hear k (came id) x = if text_eq id k then some newcomer else x
hear k (went id) x = if text_eq id k then none else x
hear k (mic_turned id b) x = if text_eq id k then hears_mic b x else x
hear k (camera_turned id b) x = if text_eq id k then hears_camera b x else x
hear k (screen_turned id b) x = if text_eq id k then hears_screen b x else x

-- The item of a change tells what the change is, and of whom.
pub read_item-item_of :
    (k : Text) (c : Change) (x : Option Heard) → read_item k (item_of c) x ≡ hear k c x
unfolding read_text
read_item-item_of k (came id) x =
    simp (says_same id k (codes " 加入语音"), says_other id k (codes " 加入语音") (codes " 离开语音") refl)
read_item-item_of k (went id) x =
    simp (says_same id k (codes " 离开语音"), says_other id k (codes " 离开语音") (codes " 加入语音") refl)
read_item-item_of k (mic_turned id true) x =
    simp (says_same id k (codes " 上麦"), says_other id k (codes " 上麦") (codes " 静音") refl)
read_item-item_of k (mic_turned id false) x =
    simp (says_same id k (codes " 静音"), says_other id k (codes " 静音") (codes " 上麦") refl)
read_item-item_of k (camera_turned id true) x = simp (
  says_same id k (codes " 打开摄像头"),
  says_other id k (codes " 打开摄像头") (codes " 关闭摄像头") refl,
  says_other id k (codes " 打开摄像头") (codes " 开启投屏") refl,
  says_other id k (codes " 打开摄像头") (codes " 关闭投屏") refl,
)
read_item-item_of k (camera_turned id false) x = simp (
  says_same id k (codes " 关闭摄像头"),
  says_other id k (codes " 关闭摄像头") (codes " 打开摄像头") refl,
  says_other id k (codes " 关闭摄像头") (codes " 开启投屏") refl,
  says_other id k (codes " 关闭摄像头") (codes " 关闭投屏") refl,
)
read_item-item_of k (screen_turned id true) x = simp (
  says_same id k (codes " 开启投屏"),
  says_other id k (codes " 开启投屏") (codes " 打开摄像头") refl,
  says_other id k (codes " 开启投屏") (codes " 关闭摄像头") refl,
  says_other id k (codes " 开启投屏") (codes " 关闭投屏") refl,
)
read_item-item_of k (screen_turned id false) x = simp (
  says_same id k (codes " 关闭投屏"),
  says_other id k (codes " 关闭投屏") (codes " 打开摄像头") refl,
  says_other id k (codes " 关闭投屏") (codes " 关闭摄像头") refl,
  says_other id k (codes " 关闭投屏") (codes " 开启投屏") refl,
)
