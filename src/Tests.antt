-- ===== src/Tests.antt =====
-- Concrete data for the tests of useChatState.ts, useSessionState.ts and useRoomState.ts.
mod Chat
mod Stream
mod Session
mod Pages
mod Room
mod Logs
mod Bytes
mod Stage
mod Layout
mod Side
use ivena_meet.Base.{codes, pos, negsuc, true, false, some, List, [], ◌∷◌}
use ivena_meet.Types.{host, null, present, JoinResp, ReconnectResp, MessageItem}

abbrev pub stored_message : MessageItem
stored_message = record {
  id = pos 7;
  room_id = codes "r1";
  user_name = codes "ada";
  nickname = codes "Ada";
  avatar_url = null;
  role = host;
  client_id = present (codes "c1");
  text = codes "hello";
  created_at = 100;
  pending = some false;
  failed = some false;
}

abbrev pub sent_message : MessageItem
sent_message = record stored_message {
  id = negsuc 4;
  client_id = present (codes "c2");
  text = codes "again";
  created_at = 101;
  pending = some true;
}

abbrev pub echoed_message : MessageItem
echoed_message = record sent_message { id = pos 8; created_at = 102; pending = some false }

abbrev pub two_messages : List MessageItem
two_messages = stored_message ∷ sent_message ∷ []

abbrev pub test_session : JoinResp
test_session = record {
  lk_url = codes "wss://m";
  token = codes "t";
  expires_in_seconds = 60;
  role = host;
  camera_allowed = true;
  screen_share_allowed = true;
  camera_expires_at = null;
  screen_share_expires_at = null;
  nickname = codes "Ada";
  avatar_url = null;
  app_session_token = codes "a";
  app_session_expires_in_seconds = 60;
  host_session_token = some (codes "h");
  host_session_expires_in_seconds = some 60;
}

abbrev pub test_reconnect : ReconnectResp
test_reconnect = record {
  lk_url = codes "wss://n";
  token = codes "u";
  expires_in_seconds = 60;
  role = host;
  camera_allowed = true;
  screen_share_allowed = false;
  camera_expires_at = null;
  screen_share_expires_at = null;
}
