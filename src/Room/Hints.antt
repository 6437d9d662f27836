-- ===== src/Room/Hints.antt =====
-- useRoomState.ts: the notice that is left when the host's identity is taken.
use ivena_meet.Base.{trim, is_empty, Text, ◌≡◌, refl, Bool, true, false, some}
use ivena_meet.Types.{host}
use ivena_meet.World.{World}
use ivena_meet.World.Effect.{thrown}
use ivena_meet.World.Env.{Env}
use ivena_meet.Session.{error_notice}
use ivena_meet.Room.{effective_role}
use ivena_meet.Room.Urls.{is_identity_in_use_error}
use ivena_meet.Room.Join.{join_body, offer_reclaim, set_joining, join_room}
use ivena_meet.Room.Moderation.{run_handler}

join_room-failed :
    (env : Env) (captured : World) (skip : Bool) (w v : World) (e : Text)
    → captured.room.joining ≡ false
    → is_empty (trim captured.user_name) ≡ false
    → join_body env captured skip (set_joining env true w) ≡ (thrown e, v)
    → join_room env captured skip w
      ≡ (thrown e, set_joining env false (offer_reclaim env captured e v))
unfolding join_room
join_room-failed env captured skip w v e j n b = rw (j, n, b) refl

offer_reclaim-host :
    (env : Env) (captured w : World) (e : Text)
    → effective_role captured ≡ host
    → is_identity_in_use_error env.to_lower_case e ≡ true
    → (offer_reclaim env captured e w).room.show_reclaim_cta ≡ true
unfolding offer_reclaim
offer_reclaim-host env captured w e r i = simp (r, i)

-- A host whose join fails since the identity is taken is offered the reclaim; if the render that
-- started the join did not offer it yet, the notice is the bare error and not the hint.
pub run_handler-identity_taken :
    (env : Env) (captured : World) (skip : Bool) (w v : World) (e : Text)
    → captured.room.joining ≡ false
    → captured.room.show_reclaim_cta ≡ false
    → is_empty (trim captured.user_name) ≡ false
    → effective_role captured ≡ host
    → is_identity_in_use_error env.to_lower_case e ≡ true
    → join_body env captured skip (set_joining env true w) ≡ (thrown e, v)
    → let t = run_handler env captured (join_room env captured skip) w in
      (t.room.show_reclaim_cta ≡ true) × (t.room.action_notice ≡ some (error_notice, e))
unfolding run_handler offer_reclaim
run_handler-identity_taken env captured skip w v e j c n r i b =
    rw (join_room-failed env captured skip w v e j n b, c)
      (offer_reclaim-host env captured v e r i, refl)
