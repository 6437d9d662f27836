-- ===== src/Types/Chat.antt =====
-- types.ts: chat messages. Identifiers and times are integers; a synthetic identifier is negative.
use ivena_meet.Base.{Text, ℤ, ℕ, Bool, Option, List}
use ivena_meet.Types.Common.{Role, Opt}

pub record MessageItem : Type 0 where
  pub id : ℤ
  pub room_id : Text
  pub user_name : Text
  pub nickname : Text
  pub avatar_url : Opt Text
  pub role : Role
  pub client_id : Opt Text
  pub text : Text
  pub created_at : ℕ
  pub pending : Option Bool
  pub failed : Option Bool

pub record ListMessagesResp : Type 0 where
  pub items : List MessageItem

pub record CreateMessageReq : Type 0 where
  pub text : Text
  pub client_id : Option Text

pub record RealtimeChatPayload : Type 0 where
  pub room_id : Text
  pub client_id : Text
  pub user_name : Text
  pub nickname : Text
  pub avatar_url : Opt Text
  pub role : Role
  pub text : Text
  pub created_at : ℕ
