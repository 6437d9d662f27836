-- ===== src/Room/Listing.antt =====
-- useRoomState.ts: the effect that loads the list of invites for a host. Each run of the effect has
-- its own flag `cancelled`, which the cleanup before the next run sets.
use ivena_meet.Base.{
  ◌==◌, if◌then◌else◌, All, trim, is_empty, codes, ℕ, suc, ◌<◌, ◌≡◌, refl, ap, ◌∙◌, Bool, true,
  false, not, ◌||◌, Option, none, some, List, [], ◌∷◌, ◌++◌, arith,
}
use ivena_meet.Types.{is_host, JoinResp, InviteListItem}
use ivena_meet.World.{World}
use ivena_meet.World.Effect.{Outcome, ok, thrown, log_to}
use ivena_meet.Room.Invites.{set_invite_items, set_loading}

abbrev is_hosting : Option JoinResp → Bool
is_hosting none = false
is_hosting (some j) = is_host j.role

-- The effect: whether a request is sent, and the world.
unfoldable pub list_effect : World → Bool × World
unfolding is_empty
list_effect w =
    if not (is_hosting w.joined)
    then (false, set_loading false (set_invite_items [] w))
    else if is_empty (trim w.room_id) || is_empty (trim w.user_name)
    then (false, w)
    else (true, set_loading true w)

-- The reply to the request of a run.
unfoldable pub list_replied : Bool → Outcome (List InviteListItem) → World → World
list_replied cancelled (ok items) w =
    if cancelled then w else set_loading false (set_invite_items items w)
list_replied cancelled (thrown e) w =
    if cancelled then w else set_loading false (log_to (codes "invite list load failed: " ++ e) w)

-- The runs of the effect and the replies: `run` is a new render, whose cleanup cancels every earlier
-- run, and `replied n r` answers the run that was the `n`-th.
pub data ListEvent : Type 0 where
  run : World → ListEvent
  replied : ℕ → Outcome (List InviteListItem) → ListEvent

-- How many runs there were, and the world.
unfoldable pub list_step : ℕ × World → ListEvent → ℕ × World
unfolding list_effect list_replied
list_step (n, w) (run v) = (suc n, (list_effect v).1)
list_step (n, w) (replied k r) = (n, list_replied (not (k == n)) r w)

unfoldable pub list_run : ℕ × World → List ListEvent → ℕ × World
unfolding list_step
list_run s [] = s
list_run s (e ∷ es) = list_run (list_step s e) es

-- The replies to earlier runs among the events after a run.
abbrev pub IsLate : ℕ → ListEvent → Type 0
IsLate n (run v) = ⊥
IsLate n (replied k r) = k < n

late_step : (n : ℕ) (w : World) (e : ListEvent) → IsLate n e → list_step (n, w) e ≡ (n, w)
unfolding list_step list_replied
late_step n w (run v) h = ground arith
late_step n w (replied k (ok items)) h = let e : (k == n) ≡ false = ground (arith, h) in rw e refl
late_step n w (replied k (thrown d)) h = let e : (k == n) ≡ false = ground (arith, h) in rw e refl

-- Replies to earlier runs, however many, change nothing.
pub list_run-late :
    (n : ℕ) (w : World) (es : List ListEvent) → All (IsLate n) es → list_run (n, w) es ≡ (n, w)
unfolding list_run
list_run-late n w [] h = refl
list_run-late n w (e ∷ es) h =
    ap (λ s. list_run s es) (late_step n w e h.0) ∙ list_run-late n w es h.1
