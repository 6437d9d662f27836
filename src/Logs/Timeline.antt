-- ===== src/Logs/Timeline.antt =====
-- Sidebar.tsx: what the timeline scans once the log is full.
use ivena_meet.Base.{leb, length, Text, ℕ, suc, ◌≡◌, refl, ap, ◌∙◌, true, List, [], ◌∷◌, arith}
use ivena_meet.Logs.{append_log, Scan, on_logs, scan_logs}
use ivena_meet.Logs.Bound.{length-append_log}

on_logs-seen :
    (logs : List Text) (t : Scan) → leb (length logs) t.last_log_index ≡ true → on_logs logs t ≡ t
unfolding on_logs
on_logs-seen logs t h = rw h refl

-- Once a log of at least two lines is full and scanned to its end, the timeline scans no line that
-- is pushed after.
pub scan_logs-full :
    (n : ℕ) (logs lines : List Text) (t : Scan)
    → length logs ≡ suc (suc n)
    → t.last_log_index ≡ suc (suc n)
    → scan_logs (suc (suc n)) logs t lines ≡ t
unfolding scan_logs
scan_logs-full n logs [] t h k = refl
scan_logs-full n logs (line ∷ lines) t h k =
    let next = append_log (suc (suc n)) logs line in
    let e = length-append_log n logs line h in
    ap (λ u. scan_logs (suc (suc n)) next u lines) (on_logs-seen next t (ground (arith, e, k)))
    ∙ scan_logs-full n next lines t e k
