-- ===== src/Sidebar/LogLines/Hooks.antt =====
-- Sidebar.tsx: what the timeline tells of the lines that useRoomState.ts and Layout.tsx log.
use ivena_meet.Types.{StageFeature, camera, screen_share, MuteResp, SetMemberMediaPermissionResp}
use ivena_meet.Sidebar.LogLines.Told.{
  stamped, IsTime, IsName, mute_line, permission_line, item_of_text-mute, item_of_text-permission,
  item_of_text-stage_permission, trim_mute, trim_permission, trim_stage_permission, line_lem,
}
use ivena_meet.Base.{
  leb, if◌then◌else◌, length, drop, length-append, starts_with, is_space, trim_start, to_decimal,
  Text, codes, ℕ, zero, suc, ◌-◌, ◌<◌, ◌≡◌, refl, ap, ◌∙◌, Bool, true, false, Option, none, some,
  List, [], ◌∷◌, ◌++◌, map, arith,
}
use ivena_meet.Logs.{slice_last, append_log, append_logs}
use ivena_meet.Sidebar.LogLines.{
  moderated, permission_text, item_of_text, item_of_line, append_some, tell_lines, logs_effect,
}
use ivena_meet.Room.Moderation.{told_mute_all, told_mute_one, told_permission}
use ivena_meet.World.Env.{Env}
use ivena_meet.Sidebar.{TimelineItem, append_timeline, Timeline}
use ivena_meet.World.{World}
use ivena_meet.Layout.Permission.{stage_permission_line}
use ivena_meet.Stage.Scene.{by_feature}

-- The line that a handler adds to the log.
logs-told_mute_one :
    (env : Env) (name : Text) (muted : Bool) (res : MuteResp) (w : World)
    → (told_mute_one env name muted res w).logs
      ≡ w.logs ++ mute_line muted name (to_decimal res.affected_tracks ++ codes ")") ∷ []
unfolding told_mute_one
logs-told_mute_one env name true res w = ground arith
logs-told_mute_one env name false res w = ground arith

abbrev mute_all_line : Bool → Text → Text
mute_all_line muted rest =
    (if muted then codes "mute all" else codes "unmute all") ++ (codes " applied (" ++ rest)

logs-told_mute_all :
    (env : Env) (muted : Bool) (res : MuteResp) (w : World)
    → (told_mute_all env muted res w).logs
      ≡ w.logs ++ mute_all_line muted (to_decimal res.affected_tracks ++ codes ")") ∷ []
unfolding told_mute_all
logs-told_mute_all env true res w = ground arith
logs-told_mute_all env false res w = ground arith

logs-told_permission :
    (env : Env) (name : Text) (feature : StageFeature) (enabled : Bool)
    → (res : SetMemberMediaPermissionResp) (w : World)
    → (rest : Text) × ((told_permission env name feature enabled res w).logs
        ≡ w.logs ++ permission_line enabled feature name rest ∷ [])
unfolding told_permission
logs-told_permission env name camera true res w = (_, refl)
logs-told_permission env name camera false res w = (_, refl)
logs-told_permission env name screen_share true res w = (_, refl)
logs-told_permission env name screen_share false res w = (_, refl)

mute_all_item :
    (muted : Bool) (rest : Text) (time : Text)
    → IsTime time
    → item_of_line (stamped time (mute_all_line muted rest))
      ≡ some (moderated (if muted then codes "主持人开启全员静音" else codes "主持人解除全员静音"))
mute_all_item true rest time h =
    line_lem time (mute_all_line true rest) _ h (unfold trim_start is_space in refl)
      (unfold item_of_text starts_with in refl)
mute_all_item false rest time h =
    line_lem time (mute_all_line false rest) _ h (unfold trim_start is_space in refl)
      (unfold item_of_text starts_with in refl)

-- The log as it is shown: `pushLog` puts the time in front and keeps the last lines.
abbrev pub pushed : ℕ → Text → List Text → List Text → List Text
pushed log_max_lines time shown lines = append_logs log_max_lines shown (map (stamped time) lines)

-- The lines that a handler has added.
abbrev pub added : World → World → List Text
added w v = drop (length w.logs) v.logs

drop-append : (xs ys : List Text) → drop (length xs) (xs ++ ys) ≡ ys
drop-append [] ys = refl
drop-append (x ∷ xs) ys = drop-append xs ys

append_log-room :
    (n : ℕ) (shown : List Text) (line : Text)
    → length shown < n
    → append_log n shown line ≡ shown ++ line ∷ []
unfolding append_log slice_last
append_log-room zero shown line h = ground arith
append_log-room (suc zero) shown line h = refl
append_log-room (suc (suc n)) shown line h =
    let e : length shown - suc n ≡ 0 = omega arith in rw e refl

-- A line that is added to a log which the timeline has read, and which has room for it.
logs_effect-one :
    (n : ℕ) (time line : Text) (shown : List Text) (t : Timeline) (r : Option TimelineItem)
    → t.last_log_index ≡ length shown
    → length shown < n
    → item_of_line (stamped time line) ≡ r
    → (logs_effect true (pushed n time shown (line ∷ [])) t).items ≡ append_some r t.items
unfolding logs_effect tell_lines append_logs
logs_effect-one n time line shown t r seen room e =
    let p = append_log-room n shown (stamped time line) room in
    let d = drop-append shown (stamped time line ∷ []) in
    let l : leb (length (shown ++ stamped time line ∷ [])) (length shown) ≡ false =
      ground (arith, length-append shown (stamped time line ∷ [])) in
    rw (p, seen, l, d, e) refl

-- The items after the line that a handler has added.
added_item :
    (n : ℕ) (time line : Text) (shown : List Text) (t : Timeline) (r : Option TimelineItem)
    (w v : World)
    → t.last_log_index ≡ length shown
    → length shown < n
    → v.logs ≡ w.logs ++ line ∷ []
    → item_of_line (stamped time line) ≡ r
    → (logs_effect true (pushed n time shown (added w v)) t).items ≡ append_some r t.items
added_item n time line shown t r w v seen room logs e =
    let d : added w v ≡ line ∷ [] =
      ap (drop (length w.logs)) logs ∙ drop-append w.logs (line ∷ []) in
    ap (λ lines. (logs_effect true (pushed n time shown lines) t).items) d
    ∙ logs_effect-one n time line shown t r seen room e

abbrev pub feature_name_shown : StageFeature → Text
feature_name_shown feature = by_feature feature (codes "摄像头") (codes "投屏")

-- The log is not full, the timeline has read all of it, the member's name is not empty and has no
-- white space, and the time in front of a line is not empty and has no closing bracket. Once a
-- reply to a host's request has been handled, the timeline shows one item more: for a mute or an
-- unmute of one member one that names the member, for one of all members one that says so, and for
-- a permission given in the side bar one with the member's name and the feature. The line that the
-- layout logs for a permission given on the stage adds no item.
pub logs_effect-moderation :
    (env : Env) (w : World) (t : Timeline) (shown : List Text) (n : ℕ) (time name : Text) (b : Bool)
    → (feature : StageFeature) (res : MuteResp) (reply : SetMemberMediaPermissionResp) → IsTime time
    → IsName name
    → t.last_log_index ≡ length shown
    → length shown < n
    → let items = λ (lines : List Text). (logs_effect true (pushed n time shown lines) t).items in
      let tells = λ (text : Text). append_timeline (moderated text) t.items in
      (items (added w (told_mute_one env name b res w))
        ≡ tells ((if b then codes "主持人静音 " else codes "主持人解除静音 ") ++ name))
      × (items (added w (told_mute_all env b res w))
          ≡ tells (if b then codes "主持人开启全员静音" else codes "主持人解除全员静音"))
      × (items (added w (told_permission env name feature b reply w))
          ≡ tells (
              permission_text
                (if b then codes "允许" else codes "关闭")
                (feature_name_shown feature)
                name))
      × (items (stage_permission_line name feature b reply ∷ []) ≡ t.items)
logs_effect-moderation env w t shown n time name b feature res reply h k seen room =
    let rest = to_decimal res.affected_tracks ++ codes ")" in
    let (more, p) = logs-told_permission env name feature b reply w in
    (
      added_item n time _ shown t _ w (told_mute_one env name b res w) seen room
          (logs-told_mute_one env name b res w)
          (line_lem time _ _ h (trim_mute b name rest) (item_of_text-mute b name rest k)),
      added_item n time _ shown t _ w (told_mute_all env b res w) seen room
          (logs-told_mute_all env b res w) (mute_all_item b rest time h),
      added_item n time _ shown t _ w (told_permission env name feature b reply w) seen room p (
          line_lem time _ _ h (trim_permission b feature name more)
            (item_of_text-permission b feature name more k)),
      logs_effect-one n time _ shown t none seen room (
          line_lem time _ none h (trim_stage_permission name feature b reply)
            (item_of_text-stage_permission name feature b reply)),
    )
