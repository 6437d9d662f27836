-- ===== src/Sidebar/Retry.antt =====
-- Sidebar.tsx: a failed message that is sent again, and how long an invite lasts.
use ivena_meet.Base.{
  ltb, ◌==◌, if◌then◌else◌, text_eq, is_empty, to_decimal, Text, codes, ℕ, ◌-◌, ◌/◌, Bool, true,
  false, not, Option, none, some, ◌++◌,
}
use ivena_meet.Types.{MessageItem}
use ivena_meet.Chat.Message.{or_false}
use ivena_meet.ChatPanel.{retry_key}

-- `retryFailedMessage` until it awaits, where a way to retry is given: whether it is called, and the
-- key of the message that is being sent again.
unfoldable pub retry_failed_message : Text → MessageItem → Text → Bool × Text
unfolding text_eq is_empty
retry_failed_message id_text m retrying =
    let key = retry_key id_text m in
    if not (or_false m.failed)
    then (false, retrying)
    else if text_eq retrying key
    then (false, retrying)
    else (true, key)

-- `inviteExpiryHint`, for an expiry that `Date.parse` reads; both times are in milliseconds.
unfoldable pub invite_expiry_hint : Option ℕ → ℕ → Text
unfolding to_decimal
invite_expiry_hint none now = codes "失效时间未知"
invite_expiry_hint (some expires) now =
    let seconds = (expires - now) / 1000 in
    if seconds == 0
    then codes "已失效"
    else if ltb seconds 60
    then to_decimal seconds ++ codes "s 后失效"
    else if ltb seconds 3600
    then to_decimal (seconds / 60) ++ codes "m 后失效"
    else to_decimal (seconds / 3600) ++ codes "h 后失效"
