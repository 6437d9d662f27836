-- ===== src/Tests/Room.antt =====
-- Runs of joining and leaving, against a server whose answers are fixed.
use ivena_meet.Room.CanJoin.{requires_invite_code, can_join, can_join-redeem_step}
use ivena_meet.Base.{
  starts_with, trim, includes, is_empty, Text, codes, ◌≡◌, refl, ◌⊎◌, true, false, ◌&&◌, ◌||◌, none,
  some, List, [], ◌∷◌, ◌++◌,
}
use ivena_meet.Types.{host, member, is_member, ForceReclaimResp, RedeemInviteResp}
use ivena_meet.Tests.{two_messages, test_session}
use ivena_meet.Session.{error_notice}
use ivena_meet.World.{idle_avatar, AvatarState, RoomState, World}
use ivena_meet.World.Effect.{ok, thrown}
use ivena_meet.World.Env.{Env}
use ivena_meet.Api.Client.Endpoints.{join, redeem, force_reclaim_host_lock}
use ivena_meet.Avatar.Blobs.{AvatarEvent, picked, was_read, left}
use ivena_meet.Room.{invite_mode, effective_role, joined_key, app_session_key}
use ivena_meet.Room.Urls.{is_identity_in_use_error}
use ivena_meet.Room.Enter.{redeem_step, join_payload, join_step}
use ivena_meet.Room.Join.{join_body, set_joining, join_room}
use ivena_meet.Room.Retry.{sent, join_step-calls}
use ivena_meet.Room.Gate.{redeem_step-token}
use ivena_meet.Room.Joined.{Entered, Refused, session_before, join_room-ends}
use ivena_meet.Room.Moderation.{run_handler}
use ivena_meet.Room.Hints.{run_handler-identity_taken}

abbrev taken_text : Text
taken_text = codes "identity already in use"

-- A server that logs the host in, finds the identity taken, and reclaims it.
abbrev pub test_env : Env
test_env = record {
  on_join = λ calls r. thrown taken_text;
  on_leave = λ calls r. ok (record { released = true });
  on_host_login =
      λ calls r. ok (record { host_session_token = codes "h"; expires_in_seconds = 60 });
  on_redeem = λ calls r. thrown (codes "no");
  on_force_reclaim =
      λ calls r. ok (record { reclaimed = true; reason = codes "stale"; stale_age_seconds = 90 });
  on_issue_invite = λ calls r. thrown (codes "no");
  on_list_invites = λ calls r. ok (record { items = [] });
  on_revoke_invite = λ calls r. ok (record { revoked = true });
  on_issue_broadcast = λ calls r. thrown (codes "no");
  on_start_broadcast = λ calls r. thrown (codes "no");
  on_stop_broadcast = λ calls r. ok tt;
  on_current_broadcast = λ calls r. thrown (codes "no");
  on_mute = λ calls r. ok (record { affected_tracks = 0 });
  on_media_permission = λ calls r. thrown (codes "no");
  on_upload_avatar = λ calls r. ok (record { avatar_url = codes "/avatars/1" });
  seconds = λ calls. 1000;
  clipboard_accepts = λ calls. true;
  to_lower_case = λ t. t;
  encode_uri_component = λ t. t;
  locale_string = λ t. t;
  locale_time_string = λ n. [];
}

abbrev test_room : RoomState
test_room = record {
  invite_code = [];
  invite_ticket = [];
  redeem_token = [];
  host_totp_code = codes "123456";
  invite_copied = false;
  session_expire_at = 0;
  host_session_expire_at = 0;
  ingress_id = [];
  whip_url = [];
  stream_key = [];
  show_broadcast_modal = false;
  joining = false;
  reclaiming = false;
  show_reclaim_cta = false;
  action_notice = none;
  host_entry_unlocked = true;
  invite_items = [];
  invite_list_loading = false;
}

abbrev test_avatar : AvatarState
test_avatar = record {
  avatar_preview = [];
  avatar_upload_data = [];
  avatar_preview_blob = [];
  avatar_kind = idle_avatar;
  avatar_text = [];
  avatar_editor_open = false;
  revoked = [];
}

-- A host in front of the room.
abbrev outside : World
outside = record {
  require_invite = false;
  room_id = codes "r1";
  user_name = codes "ada";
  role = host;
  joined = none;
  app_session_token = [];
  host_session_token = [];
  messages = [];
  logs = [];
  storage = record { items = []; is_readable = true; is_writable = true };
  avatar = test_avatar;
  chat_view = record { pending_chat_hints = 0; auto_scroll = true; last_tail_key = [] };
  room = test_room;
  clipboard = [];
  address = [];
  calls = [];
}

abbrev pub inside : World
inside = record outside {
  joined = some test_session;
  app_session_token = codes "a";
  messages = two_messages;
  storage = record {
    items =
        (joined_key, codes "{}") ∷ (codes "other", codes "1") ∷ (app_session_key, codes "a") ∷ [];
    is_readable = true;
    is_writable = true;
  };
}

-- A server that lets the host in.
abbrev open_env : Env
open_env = record test_env { on_join = λ calls r. ok test_session }

join_room-ends_example :
    let r = join_room open_env outside false outside in
    (r.1.room.joining ≡ false)
    × (Entered open_env outside r.1 ⊎ Refused (session_before outside outside) r)
unfolding is_empty trim
join_room-ends_example = join_room-ends open_env outside false outside refl refl

join_step-calls_example :
    let joining = join (join_payload test_env outside []) none in
    let reclaiming =
      force_reclaim_host_lock
        (record { room_id = trim outside.room_id; host_identity = trim outside.user_name })
        none in
    let once = outside.calls ++ sent outside joining ∷ [] in
    let twice = once ++ sent outside reclaiming ∷ [] in
    let after = (join_step test_env outside false [] none outside).1.calls in
    (after ≡ once)
    ⊎ ((effective_role outside ≡ host)
        × (false ≡ false)
        × ((t : Text) × (test_env.on_join outside.calls joining ≡ thrown t)
            × (is_identity_in_use_error test_env.to_lower_case t ≡ true))
        × ((after ≡ twice)
            ⊎ (((got : ForceReclaimResp) × (test_env.on_force_reclaim once reclaiming ≡ ok got))
                × (after ≡ twice ++ sent outside joining ∷ []))))
join_step-calls_example = join_step-calls test_env outside false [] none outside

-- An image is picked, a second one in its place, and the first one is read.
abbrev avatar_events : List AvatarEvent
avatar_events =
    picked (codes "image/png") 10 100 b'b' (codes "lob:1")
    ∷ picked (codes "image/png") 20 100 b'b' (codes "lob:2")
    ∷ was_read outside (some (codes "data:image/png"))
    ∷ left
    ∷ []

failed_join :
    let r = join_body test_env outside true (set_joining test_env true outside) in
    r ≡ (thrown taken_text, r.1)
unfolding join_body
failed_join = refl

taken_seen : is_identity_in_use_error test_env.to_lower_case taken_text ≡ true
unfolding is_identity_in_use_error includes starts_with
taken_seen = refl

host_outside : effective_role outside ≡ host
unfolding effective_role
host_outside = refl

named_outside : is_empty (trim outside.user_name) ≡ false
unfolding trim is_empty
named_outside = refl

run_handler-identity_taken_example :
    let t = run_handler test_env outside (join_room test_env outside true) outside in
    (t.room.show_reclaim_cta ≡ true) × (t.room.action_notice ≡ some (error_notice, taken_text))
run_handler-identity_taken_example =
    run_handler-identity_taken test_env outside true outside
      (join_body test_env outside true (set_joining test_env true outside)).1 taken_text refl refl
      named_outside host_outside taken_seen failed_join

-- A member in front of a room that wants an invite, with a redeem token.
abbrev guest : World
guest = record outside {
  require_invite = true;
  role = member;
  room = record test_room { host_entry_unlocked = false; redeem_token = codes " tok " };
}

guest_gated :
    ((guest.require_invite || invite_mode guest) && is_member (effective_role guest)) ≡ true
unfolding effective_role invite_mode is_empty
guest_gated = refl

guest_token : (redeem_step test_env guest guest).0 ≡ ok (codes "tok")
unfolding redeem_step
guest_token = refl

redeem_step-token_example :
    ((codes "tok" ≡ trim guest.room.redeem_token) × (is_empty (codes "tok") ≡ false))
    ⊎ ((is_empty (trim guest.room.invite_code) ≡ false)
        × (is_empty (trim guest.room.invite_ticket) ≡ false)
        × ((got : RedeemInviteResp) × (test_env.on_redeem guest.calls (
                redeem (record {
                  room_id = trim guest.room_id;
                  user_name = trim guest.user_name;
                  invite_ticket = trim guest.room.invite_ticket;
                  invite_code = trim guest.room.invite_code;
                }))
              ≡ ok got)
            × (codes "tok" ≡ got.redeem_token)))
redeem_step-token_example =
    redeem_step-token test_env guest guest (codes "tok") guest_gated guest_token

-- A guest with an invite that the server refuses.
abbrev invited : World
invited = record guest {
  room = record test_room {
    host_entry_unlocked = false;
    invite_code = codes "c";
    invite_ticket = codes "t";
    redeem_token = [];
  };
}

invited_ready : can_join invited ≡ true
unfolding can_join requires_invite_code effective_role invite_mode is_empty
invited_ready = refl

invited_refused : (redeem_step test_env invited invited).0 ≡ thrown (codes "no")
unfolding redeem_step effective_role invite_mode
invited_refused = refl

can_join-redeem_step_example :
    test_env.on_redeem invited.calls (
      redeem (record {
        room_id = trim invited.room_id;
        user_name = trim invited.user_name;
        invite_ticket = trim invited.room.invite_ticket;
        invite_code = trim invited.room.invite_code;
      }))
    ≡ thrown (codes "no")
can_join-redeem_step_example =
    can_join-redeem_step test_env invited invited (codes "no") invited_ready invited_refused
