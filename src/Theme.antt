-- ===== src/Theme.antt =====
-- apps/frontend/src/lib/theme.ts: the colour theme.
use ivena_meet.Base.{if◌then◌else◌, text_eq, Text, codes, ◌≡◌, Bool, true, none, some, arith}
use ivena_meet.Storage.{Storage, find_item, get_item, set_item, or_same}

pub data ThemeMode : Type 0 where
  system dark light twilight : ThemeMode

pub data ResolvedTheme : Type 0 where
  dark_theme light_theme twilight_theme : ResolvedTheme

abbrev pub theme_key : Text
theme_key = codes "ivena.meet.theme_mode"

-- How a mode is stored.
abbrev pub mode_text : ThemeMode → Text
mode_text system = codes "system"
mode_text dark = codes "dark"
mode_text light = codes "light"
mode_text twilight = codes "twilight"

unfoldable pub parse_theme_mode : Text → ThemeMode
unfolding text_eq
parse_theme_mode raw =
    if text_eq raw (codes "dark")
    then dark
    else if text_eq raw (codes "light")
    then light
    else if text_eq raw (codes "system")
    then system
    else if text_eq raw (codes "twilight")
    then twilight
    else system

unfoldable pub read_theme_mode : Storage → ThemeMode
unfolding parse_theme_mode get_item
read_theme_mode s = elim (get_item theme_key s) [
  | none ↦ system
  | some none ↦ system
  | some (some raw) ↦ parse_theme_mode raw
]

unfoldable pub resolve_theme : ThemeMode → Bool → ResolvedTheme
resolve_theme system prefers_dark = if prefers_dark then dark_theme else light_theme
resolve_theme dark prefers_dark = dark_theme
resolve_theme light prefers_dark = light_theme
resolve_theme twilight prefers_dark = twilight_theme

-- The effect on the mode in Layout.tsx: it is stored, if the storage takes it.
unfoldable pub store_theme_mode : ThemeMode → Storage → Storage
unfolding set_item
store_theme_mode mode s = or_same (set_item theme_key (mode_text mode) s) s

-- A stored mode is read back, and a storage that cannot be read gives the system's.
pub read-store_theme_mode :
    (mode : ThemeMode) (s : Storage)
    → s.is_writable ≡ true
    → read_theme_mode (store_theme_mode mode s) ≡ (if s.is_readable then mode else system)
unfolding read_theme_mode store_theme_mode get_item set_item find_item parse_theme_mode text_eq
read-store_theme_mode system s w = ground arith
read-store_theme_mode dark s w = ground arith
read-store_theme_mode light s w = ground arith
read-store_theme_mode twilight s w = ground arith
