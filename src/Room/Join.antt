-- ===== src/Room/Join.antt =====
-- useRoomState.ts: joining the room.
use ivena_meet.Types.{Role, host, member, is_host, nullish, JoinResp, CurrentBroadcastResp}
use ivena_meet.Base.{
  ◌==◌, if◌then◌else◌, trim, is_empty, Text, codes, ℕ, ◌+◌, Bool, true, false, not, ◌&&◌, ◌||◌,
  Option, none, some, [], ◌++◌,
}
use ivena_meet.World.{error_avatar, World}
use ivena_meet.World.Effect.{
  ok, thrown, M, ◌>>=◌, ◌>>◌, return, throw, modify, gets, catching, finally, when, update_room,
  update_avatar, log_to, push_log,
}
use ivena_meet.World.Env.{Env, request}
use ivena_meet.Api.Client.Endpoints.{force_reclaim_host_lock, broadcast_status, upload_avatar}
use ivena_meet.Avatar.Sync.{
  set_status, release_blob, is_joined, sync_avatar_from_server, uploaded_avatar,
}
use ivena_meet.Room.{effective_role, show_action_notice, clear_broadcast}
use ivena_meet.Room.Urls.{derive_whip_url, is_identity_in_use_error}
use ivena_meet.Room.Leave.{leave_world}
use ivena_meet.Session.{ok_notice, error_notice}
use ivena_meet.Room.Enter.{redeem_step, login_step, reclaim_line, reclaim_request, join_step}

-- `a ?? b`
abbrev pub first_of_two : Option Text → Option Text → Option Text
first_of_two none b = b
first_of_two (some a) b = some a

abbrev pub text_or_empty : Option Text → Text
text_or_empty none = []
text_or_empty (some t) = t

module _ (env : Env) where
  -- `expiresIn ? now + expiresIn : …` for the host's session, where the server sends one.
  abbrev host_expiry : JoinResp → ℕ → ℕ → ℕ
  host_expiry res now before =
      host_expiry_of res.host_session_token res.host_session_expires_in_seconds
    where
      host_expiry_of : Option Text → Option ℕ → ℕ
      host_expiry_of none e = before
      host_expiry_of (some t) none = before
      host_expiry_of (some t) (some n) = if is_empty t || (n == 0) then before else now + n

  unfoldable pub store_joined : World → JoinResp → World → World
  unfolding is_empty
  store_joined captured res w =
      log_to
        (codes "joined: "
          ++ (captured.user_name ++ (codes " (" ++ (role_text res.role ++ codes ")"))))
        (record w {
          joined = some res;
          app_session_token = res.app_session_token;
          host_session_token = text_or_empty res.host_session_token;
          room = record w.room {
            show_reclaim_cta = false;
            host_session_expire_at =
                host_expiry res (env.seconds w.calls) w.room.host_session_expire_at;
            session_expire_at = env.seconds w.calls + res.app_session_expires_in_seconds;
          };
        })
    where
      role_text : Role → Text
      role_text host = codes "host"
      role_text member = codes "member"

  -- The reply of `currentBroadcast`: its three texts if it is active and has them all.
  unfoldable pub store_broadcast : CurrentBroadcastResp → Text → World → World × Bool
  unfolding derive_whip_url is_empty
  store_broadcast current lk_url w =
      let ingress = nullish current.ingress_id [] in
      let whip = nullish current.whip_url [] in
      let key = nullish current.stream_key [] in
      if current.active && (not (is_empty ingress) && (not (is_empty whip) && not (is_empty key)))
      then (
        update_room
            (λ r. record r {
              ingress_id = ingress;
              whip_url = derive_whip_url whip lk_url;
              stream_key = key;
            })
            w,
        true,
      )
      else (clear_broadcast w, false)

  unfoldable pub restore_broadcast : World → JoinResp → Option Text → M (Unit {0})
  unfolding request broadcast_status store_broadcast
  restore_broadcast captured res auth = do
    current ← request env.on_current_broadcast captured (
        broadcast_status
          (record { room_id = trim captured.room_id; host_identity = trim captured.user_name })
          (first_of_two auth res.host_session_token))
    restored ← λ w. let r = store_broadcast current res.lk_url w in (ok r.1, r.0)
    when restored (push_log (codes "broadcast restored: " ++ nullish current.ingress_id []))

  abbrev fallback_line : Text → Text
  fallback_line url = if is_empty url then codes "头像上传失败，已使用默认头像" else codes "头像上传失败，已回退到已保存头像"

  -- The avatar that was picked before joining is uploaded; a failure falls back to the stored one.
  unfoldable pub upload_pending : JoinResp → Text → Text → World → M (Unit {0})
  unfolding request upload_avatar sync_avatar_from_server release_blob is_empty
  upload_pending res name upload_data captured =
      catching
        (do
          uploaded ←
              request env.on_upload_avatar captured
                (upload_avatar upload_data (some res.app_session_token))
          modify (uploaded_avatar env name uploaded.avatar_url)
          push_log (codes "avatar uploaded: " ++ uploaded.avatar_url))
        (λ e. do
          modify (update_avatar (λ a. release_blob (record a { avatar_upload_data = [] })))
          modify (sync_avatar_from_server env name res.avatar_url)
          modify (set_status error_avatar (fallback_line (nullish res.avatar_url [])))
          push_log (codes "avatar upload failed: Error: " ++ e))

  unfoldable pub settle_avatar : World → JoinResp → M (Unit {0})
  unfolding upload_pending sync_avatar_from_server is_empty trim
  settle_avatar captured res = do
    picked ← gets (λ w. w.avatar.avatar_upload_data)
    let name = trim captured.user_name
    if is_empty picked
        then modify (sync_avatar_from_server env name res.avatar_url)
        else upload_pending res name picked captured

  unfoldable pub join_body : World → Bool → M (Unit {0})
  unfolding redeem_step login_step join_step store_joined restore_broadcast settle_avatar
      leave_world
  join_body captured skip_auto_reclaim = do
    when (is_joined captured.joined) (leave_world env captured)
    token ← redeem_step env captured
    auth ← login_step env captured
    res ← join_step env captured skip_auto_reclaim token auth
    modify (store_joined captured res)
    when (is_host res.role) (restore_broadcast captured res auth)
    settle_avatar captured res

  -- The outer `catch`: a host whose identity is taken is offered to reclaim it.
  unfoldable pub offer_reclaim : World → Text → World → World
  unfolding effective_role is_identity_in_use_error
  offer_reclaim captured e w =
      if is_host (effective_role captured) && is_identity_in_use_error env.to_lower_case e
      then log_to (codes "host identity occupied; use force reclaim and retry") (
          show_action_notice error_notice (codes "主持身份被占用，可一键回收后重试")
            (update_room (λ r. record r { show_reclaim_cta = true }) w))
      else w

  abbrev pub set_joining : Bool → World → World
  set_joining b = update_room (λ r. record r { joining = b })

  -- `throw` inside the outer `catch`.
  abbrev pub rethrow_after : (Text → World → World) → Text → M (Unit {0})
  rethrow_after f e w = (thrown e, f e w)

  unfoldable pub join_room : World → Bool → M (Unit {0})
  unfolding join_body offer_reclaim is_empty trim
  join_room captured skip_auto_reclaim =
      let run_body =
        finally
          (catching (join_body captured skip_auto_reclaim) (rethrow_after (offer_reclaim captured)))
          (set_joining false) in
      if captured.room.joining
      then return tt
      else if is_empty (trim captured.user_name)
      then throw (codes "name is required")
      else modify (set_joining true) >> run_body

  unfoldable pub force_reclaim_and_retry : World → M (Unit {0})
  unfolding join_room request force_reclaim_host_lock
  force_reclaim_and_retry captured =
      let run_body =
        finally
          (do
            reclaimed ← reclaim_request env captured none
            push_log (reclaim_line env (codes "host reclaim: ") reclaimed)
            modify (show_action_notice ok_notice (codes "已回收残留会话，正在重试"))
            modify (update_room (λ r. record r { show_reclaim_cta = false }))
            join_room captured true)
          (update_room (λ r. record r { reclaiming = false })) in
      if captured.room.reclaiming
      then return tt
      else modify (update_room (λ r. record r { reclaiming = true })) >> run_body
