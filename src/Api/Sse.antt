-- ===== src/Api/Sse.antt =====
-- api.ts: server-sent events, from the chunks of text to the calls of the handlers. The bytes are
-- decoded by the browser; a chunk here is the text that its decoder gave.
pub mod Chunks
use Prim.Native.Nat.{◌%◌}
use mathlib.Core.List.{reverse}
use ivena_meet.Base.{
  leb, ◌==◌, if◌then◌else◌, length, take, drop, text_eq, starts_with, trim_start, trim_end, trim,
  index_of, is_empty, Text, codes, ℕ, zero, suc, ◌+◌, ◌-◌, ◌*◌, ◌&&◌, ◌||◌, Option, none, some,
  List, [], ◌∷◌, ◌++◌,
}
use ivena_meet.Types.{MessageItem}

-- `s.split("\n")`
split_from : Text → Text → List Text
split_from line [] = reverse line ∷ []
split_from line (c ∷ s) =
    let closed = reverse line ∷ split_from [] s in
    let longer = split_from (c ∷ line) s in if c == 10 then closed else longer

unfoldable pub split_lines : Text → List Text
unfolding split_from
split_lines s = split_from [] s

-- `lines.join("\n")`
unfoldable pub join_lines : List Text → Text
join_lines [] = []
join_lines (l ∷ []) = l
join_lines (l ∷ m ∷ ls) = l ++ (10 ∷ join_lines (m ∷ ls))

pub record SseFrame : Type 0 where
  pub event : Text
  pub data_lines : List Text

abbrev pub event_prefix : Text
event_prefix = codes "event:"

abbrev pub data_prefix : Text
data_prefix = codes "data:"

-- One round of the loop over the lines.
unfoldable pub read_line : SseFrame → Text → SseFrame
unfolding trim trim_start trim_end starts_with is_empty
read_line f line =
    let trimmed = trim_end line in
    if is_empty trimmed || starts_with trimmed (codes ":")
    then f
    else if starts_with trimmed event_prefix
    then record f { event = trim (drop 6 trimmed) }
    else if starts_with trimmed data_prefix
    then record f { data_lines = f.data_lines ++ trim_start (drop 5 trimmed) ∷ [] }
    else f

unfoldable pub read_lines : SseFrame → List Text → SseFrame
unfolding read_line
read_lines f [] = f
read_lines f (l ∷ ls) = read_lines (read_line f l) ls

-- `null` where the frame has no data line, else the event's name and its data.
unfoldable pub parse_sse_frame : Text → Option (Text × Text)
unfolding read_lines split_lines join_lines
parse_sse_frame frame =
    let f = read_lines (record { event = codes "message"; data_lines = [] }) (split_lines frame) in
    elim f.data_lines [ [] ↦ none | l ∷ ls ↦ some (f.event, join_lines (l ∷ ls)) ]

-- `Number.parseInt(s, 10)` where it is positive, and 0 otherwise; a number past 2 ^ 53 is exact here.
digits_value : ℕ → Text → ℕ
digits_value acc [] = acc
digits_value acc (c ∷ s) =
    let rest = digits_value (acc * 10 + (c - b'0')) s in
    if leb b'0' c && leb c b'9' then rest else acc

abbrev after_sign : Text → Text
after_sign [] = []
after_sign (c ∷ s) = if c == b'+' then s else c ∷ s

unfoldable pub positive_int : Text → ℕ
unfolding digits_value trim_start
positive_int s = digits_value 0 (after_sign (trim_start s))

-- The calls that the loop makes.
pub data SseCall : Type 0 where
  message : MessageItem → SseCall
  lagged : ℕ → SseCall
  error : Text → SseCall

-- `.replace(/\r/g, "")`
unfoldable pub strip_returns : Text → Text
strip_returns [] = []
strip_returns (c ∷ s) = let rest = strip_returns s in if c == 13 then rest else c ∷ rest

-- `JSON.parse`, which throws where there is no value.
module _ (parse_message : Text → Option MessageItem) where
  unfoldable pub dispatch_frame : Text → List SseCall
  unfolding parse_sse_frame positive_int text_eq
  dispatch_frame frame = elim (parse_sse_frame frame) [
    | none ↦ []
    | some (event, body) ↦
        if text_eq event (codes "message")
        then (elim (parse_message body) [
          | none ↦ error (codes "invalid message stream payload") ∷ []
          | some item ↦ message item ∷ []
        ])
        else if text_eq event (codes "lagged")
        then lagged (positive_int body) ∷ []
        else []
  ]

  -- The inner loop: the calls for the whole frames of the buffer, and what is left of it.
  unfoldable pub drain : ℕ → Text → List SseCall × Text
  unfolding index_of
  drain zero buffer = ([], buffer)
  drain (suc fuel) buffer = elim (index_of buffer (10 ∷ 10 ∷ [])) [
    | none ↦ ([], buffer)
    | some i ↦
        let rest = drain fuel (drop (i + 2) buffer) in
        (dispatch_frame (take i buffer) ++ rest.0, rest.1)
  ]

  -- One read of the outer loop.
  unfoldable pub read_chunk : Text → Text → List SseCall × Text
  unfolding drain strip_returns dispatch_frame
  read_chunk buffer chunk =
      let next = buffer ++ strip_returns chunk in drain (suc (length next)) next

  -- The outer loop, while no handler closes the stream: that would make the next read throw, after
  -- the frames of the buffer have been handled.
  unfoldable pub read_chunks : Text → List Text → List SseCall × Text
  unfolding read_chunk
  read_chunks buffer [] = ([], buffer)
  read_chunks buffer (chunk ∷ chunks) =
      let now = read_chunk buffer chunk in
      let later = read_chunks now.1 chunks in (now.0 ++ later.0, later.1)
