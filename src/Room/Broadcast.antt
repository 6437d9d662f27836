-- ===== src/Room/Broadcast.antt =====
-- useRoomState.ts: the broadcast of the host.
use ivena_meet.Base.{
  if◌then◌else◌, trim, is_empty, Text, codes, Bool, true, false, not, ◌&&◌, Option, none, some, [],
  ◌++◌,
}
use ivena_meet.Types.{is_host, JoinResp, CurrentBroadcastResp}
use ivena_meet.World.{World}
use ivena_meet.World.Effect.{
  Outcome, ok, thrown, M, ◌>>=◌, ◌>>◌, throw, modify, update_room, log_to, push_log,
}
use ivena_meet.World.Env.{Env, request}
use ivena_meet.Api.Client.Endpoints.{issue, start_broadcasting, stop_broadcasting}
use ivena_meet.Session.{ok_notice}
use ivena_meet.Room.{show_action_notice, clear_broadcast}
use ivena_meet.Room.Urls.{derive_whip_url}
use ivena_meet.Room.Join.{store_broadcast}

-- `joined?.lk_url`, where a missing address counts as the empty one.
abbrev lk_url_of : Option JoinResp → Text
lk_url_of none = []
lk_url_of (some j) = j.lk_url

module _ (env : Env) where
  unfoldable pub start_broadcast_world : World → M (Unit {0})
  unfolding request issue start_broadcasting derive_whip_url trim
  start_broadcast_world captured = do
    issued ← request env.on_issue_broadcast captured (
        issue (record { room_id = trim captured.room_id; host_identity = trim captured.user_name }))
    started ← request env.on_start_broadcast captured (
        start_broadcasting (record {
          room_id = trim captured.room_id;
          participant_identity = trim captured.user_name;
          participant_name = some (trim captured.user_name);
          start_token = issued.start_token;
        }))
    modify (
        update_room (λ r. record r {
          ingress_id = started.ingress_id;
          whip_url = derive_whip_url started.whip_url (lk_url_of captured.joined);
          stream_key = started.stream_key;
          show_broadcast_modal = true;
        }))
    push_log (codes "broadcast started")
    push_log (codes "echo-safe tip: OBS 只推桌面+系统音，麦克风请走房间语音")
    modify (show_action_notice ok_notice (codes "推流参数已生成"))

  unfoldable pub stop_broadcast_world : World → M (Unit {0})
  unfolding request stop_broadcasting is_empty trim
  stop_broadcast_world captured =
      let ingress = trim captured.room.ingress_id in
      let stopping : M (Unit {0}) = (do
        request env.on_stop_broadcast captured (stop_broadcasting (record { ingress_id = ingress }))
        modify clear_broadcast
        push_log (codes "broadcast stopped")
        modify (show_action_notice ok_notice (codes "推流已停止"))) in
      if is_empty ingress then throw (codes "ingress_id required") else stopping

  -- The reply of the effect that looks up the broadcast; `cancelled` once its inputs changed.
  unfoldable pub on_current_broadcast_reply :
      Bool → JoinResp → Outcome CurrentBroadcastResp → World → World
  unfolding store_broadcast
  on_current_broadcast_reply true j reply w = w
  on_current_broadcast_reply false j (ok current) w = (store_broadcast env current j.lk_url w).0
  on_current_broadcast_reply false j (thrown e) w =
      log_to (codes "broadcast current lookup failed: " ++ e) w

  -- The effect that looks it up: its part before the reply, and whether a request is sent.
  unfoldable pub look_up_broadcast : World → World × Bool
  unfolding is_empty trim
  look_up_broadcast w = elim w.joined [
    | none ↦ (clear_broadcast w, false)
    | some j ↦
        if is_host j.role
        then (w, not (is_empty (trim w.room_id)) && not (is_empty (trim w.user_name)))
        else (clear_broadcast w, false)
  ]
