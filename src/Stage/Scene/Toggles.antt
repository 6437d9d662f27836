-- ===== src/Stage/Scene/Toggles.antt =====
-- MainStage.tsx: the buttons for the microphone, the camera and the screen.
use ivena_meet.Base.{if◌then◌else◌, Text, codes, Bool, false, not, ◌&&◌, Option, none, some, ◌++◌}
use ivena_meet.Types.{StageFeature, camera, screen_share, is_host}
use ivena_meet.Session.{ok_notice, error_notice}
use ivena_meet.World.Effect.{Outcome, ok, thrown}
use ivena_meet.Stage.Scene.{LocalParticipant, SceneProps, Scene, tell}

-- Calls of the local participant.
pub data Switch : Type 0 where
  set_microphone_enabled set_camera_enabled set_screen_share_enabled : Bool → Switch

-- What a button does until it awaits: it asks the host, switches a source, or has ended.
pub data Pressed : Type 0 where
  asks : StageFeature → Pressed
  switches : Switch → Pressed
  ends : Pressed

abbrev pub mic_of : Option LocalParticipant → Bool
mic_of none = false
mic_of (some l) = l.microphone_on

abbrev pub cam_of : Option LocalParticipant → Bool
cam_of none = false
cam_of (some l) = l.camera_on

abbrev pub share_of : Option LocalParticipant → Bool
share_of none = false
share_of (some l) = l.screen_share_on

unfoldable pub toggle_mic : SceneProps → Scene → Pressed × Scene
toggle_mic p s = (switches (set_microphone_enabled (not (mic_of p.local_participant))), s)

unfoldable pub toggle_camera : SceneProps → Scene → Pressed × Scene
toggle_camera p s =
    let on = cam_of p.local_participant in
    if not on && (not (is_host p.role) && not s.stage_permission.camera_flag)
    then (asks camera, s)
    else (switches (set_camera_enabled (not on)), s)

-- `has_display_media` says whether the browser can share a screen.
unfoldable pub toggle_share : Bool → SceneProps → Scene → Pressed × Scene
toggle_share has_display_media p s =
    let on = share_of p.local_participant in
    if p.has_ingress_participant && not on
    then (ends, tell error_notice (codes "OBS 推流中，请勿开启浏览器共享，避免回声") s)
    else if not on && (not (is_host p.role) && not s.stage_permission.screen_share_flag)
    then (asks screen_share, s)
    else if not has_display_media
    then (ends, tell error_notice (codes "当前设备/浏览器不支持屏幕共享") s)
    else (switches (set_screen_share_enabled (not on)), s)

abbrev on_or_off : Bool → Text → Text → Text
on_or_off b s t = if b then s else t

abbrev switched_text : Switch → Text
switched_text (set_microphone_enabled b) = on_or_off b (codes "麦克风已开启") (codes "麦克风已关闭")
switched_text (set_camera_enabled b) = on_or_off b (codes "摄像头已开启") (codes "摄像头已关闭")
switched_text (set_screen_share_enabled b) = on_or_off b (codes "已开始共享屏幕（不含系统音）") (codes "已停止共享屏幕")

abbrev failed_text : Switch → Text
failed_text (set_microphone_enabled b) = codes "麦克风操作失败："
failed_text (set_camera_enabled b) = codes "摄像头操作失败："
failed_text (set_screen_share_enabled b) = codes "共享屏幕失败："

-- What follows the answer of the local participant. Without one there is nothing to await, and the
-- text is shown all the same.
unfoldable pub switched : Switch → Outcome (Unit {0}) → Scene → Scene
switched c (ok u) s = tell ok_notice (switched_text c) s
switched c (thrown e) s = tell error_notice (failed_text c ++ e) s
