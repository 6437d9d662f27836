-- ===== src/Logs.antt =====
-- apps/frontend/src/components/Layout.tsx: the lines of the log; components/Sidebar.tsx: which of
-- them the timeline scans. A line is given with its time in front.
pub mod Bound
pub mod Timeline
use ivena_meet.Base.{leb, if◌then◌else◌, length, drop, Text, ℕ, zero, suc, ◌-◌, List, [], ◌∷◌, ◌++◌}

-- `xs.slice(-(n - 1))`: of 0 it is the whole list, and of -1 all but the first.
unfoldable pub slice_last : ℕ → List Text → List Text
slice_last zero xs = drop 1 xs
slice_last (suc zero) xs = xs
slice_last (suc (suc n)) xs = drop (length xs - suc n) xs

-- `pushLog`, with `LOG_MAX_LINES` as its first argument.
unfoldable pub append_log : ℕ → List Text → Text → List Text
unfolding slice_last
append_log log_max_lines prev line = slice_last log_max_lines prev ++ line ∷ []

unfoldable pub append_logs : ℕ → List Text → List Text → List Text
append_logs log_max_lines prev [] = prev
append_logs log_max_lines prev (line ∷ lines) =
    append_logs log_max_lines (append_log log_max_lines prev line) lines

-- What the timeline keeps of the log: the index it has reached, and the lines it has scanned.
pub record Scan : Type 0 where
  pub last_log_index : ℕ
  pub scanned : List Text

-- The effect on the log while the user is in the room.
unfoldable pub on_logs : List Text → Scan → Scan
on_logs logs t =
    if leb (length logs) t.last_log_index
    then t
    else record { last_log_index = length logs; scanned = t.scanned ++ drop t.last_log_index logs }

-- Lines that come one at a time, each with its render.
unfoldable pub scan_logs : ℕ → List Text → Scan → List Text → Scan
scan_logs log_max_lines logs t [] = t
scan_logs log_max_lines logs t (line ∷ lines) =
    let next = append_log log_max_lines logs line in
    scan_logs log_max_lines next (on_logs next t) lines
