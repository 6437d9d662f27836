-- ===== src/Layout/Signal.antt =====
-- Layout.tsx: how the LiveKit connection gets a new token after an issue with its signal.
pub mod Spacing
use ivena_meet.Base.{
  ltb, if◌then◌else◌, is_empty, Text, codes, ℕ, suc, ◌+◌, ◌-◌, Bool, true, false, not, ◌||◌, Option,
  none, some, List, [], ◌∷◌, ◌++◌,
}
use ivena_meet.Types.{JoinResp, ReconnectResp}
use ivena_meet.Session.{restore}

-- `in_flight` and `cooldown_until` are refs. `calls` are the times of the calls of
-- `api.reconnectRoom`, the latest first, and `pending` is how many of them have not been answered.
pub record Signal : Type 0 where
  pub joined : Option JoinResp
  pub in_flight : Bool
  pub cooldown_until : ℕ
  pub pending : ℕ
  pub calls : List ℕ
  pub logs : List Text

abbrev pub mount_signal : Option JoinResp → Signal
mount_signal joined = record {
  joined = joined;
  in_flight = false;
  cooldown_until = 0;
  pending = 0;
  calls = [];
  logs = [];
}

abbrev pub log_signal : Text → Signal → Signal
log_signal line s = record s { logs = s.logs ++ line ∷ [] }

abbrev pub is_there : Option JoinResp → Bool
is_there none = false
is_there (some j) = true

-- `recoverLivekitSignal` until it awaits. `joined` and `token` are what its render has captured.
unfoldable pub recover_livekit_signal : Option JoinResp → Text → Text → ℕ → Signal → Signal
unfolding is_empty
recover_livekit_signal joined token reason now s =
    if not (is_there joined) || is_empty token
    then s
    else if s.in_flight
    then s
    else if ltb now s.cooldown_until
    then s
    else log_signal (codes "livekit signal issue, recovering: " ++ reason) (record s {
      in_flight = true;
      cooldown_until = now + 6000;
      pending = suc s.pending;
      calls = now ∷ s.calls;
    })

abbrev pub restore_some : ReconnectResp → Option JoinResp → Option JoinResp
restore_some res none = none
restore_some res (some prev) = some (restore prev res)

unfoldable pub recovery_succeeded : ReconnectResp → Signal → Signal
unfolding restore
recovery_succeeded res s =
    record (log_signal (codes "livekit reconnect token refreshed")
      (record s { joined = restore_some res s.joined; pending = s.pending - 1 })) {
        in_flight = false;
      }

unfoldable pub recovery_failed : Text → Signal → Signal
recovery_failed detail s =
    record (log_signal (codes "livekit reconnect failed: " ++ detail)
      (record s { pending = s.pending - 1 })) { in_flight = false }
