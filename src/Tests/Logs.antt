-- ===== src/Tests/Logs.antt =====
-- Runs of the log and its timeline.
use ivena_meet.Base.{length, drop, Text, codes, ◌-◌, ◌≡◌, refl, List, [], ◌∷◌}
use ivena_meet.Logs.{append_logs, Scan, scan_logs}
use ivena_meet.Logs.Bound.{append_logs-last}
use ivena_meet.Logs.Timeline.{scan_logs-full}

abbrev three_lines : List Text
three_lines = codes "joined" ∷ codes "mute all applied (2)" ∷ codes "left room" ∷ []

append_logs-last_example : append_logs 2 [] three_lines ≡ drop (length three_lines - 2) three_lines
append_logs-last_example = append_logs-last 0 three_lines

abbrev seen_logs : Scan
seen_logs = record { last_log_index = 3; scanned = three_lines }

scan_logs-full_example : scan_logs 3 three_lines seen_logs three_lines ≡ seen_logs
scan_logs-full_example = scan_logs-full 1 three_lines three_lines seen_logs refl refl
