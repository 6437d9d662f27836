-- ===== src/Stage/Parse.antt =====
-- MainStage.tsx: the payloads that participants send each other.
use ivena_meet.Base.{
  if◌then◌else◌, text_eq, is_empty, Text, codes, ℤ, pos, eqb_ℤ, ℕ, ◌≡◌, Bool, true, false, not,
  ◌&&◌, Option, none, some, List, arith,
}
use ivena_meet.Types.{
  StageFeature, camera, screen_share, StageRequestPayload, StageDecisionPayload,
  StageControlPayload, stage_request, stage_decision,
}
use ivena_meet.Stage.Json.{
  Json, null_value, array_value, boolean, number, string, object, Fields, no_fields, field, lookup,
  has_distinct_keys, fields_distinct, Codec,
}

-- `typeof value === "string"`, and so on.
abbrev as_text : Option Json → Option Text
as_text none = none
as_text (some null_value) = none
as_text (some array_value) = none
as_text (some (boolean b)) = none
as_text (some (number n)) = none
as_text (some (string s)) = some s
as_text (some (object fs)) = none

abbrev as_number : Option Json → Option ℤ
as_number none = none
as_number (some null_value) = none
as_number (some array_value) = none
as_number (some (boolean b)) = none
as_number (some (number n)) = some n
as_number (some (string s)) = none
as_number (some (object fs)) = none

abbrev as_boolean : Option Json → Option Bool
as_boolean none = none
as_boolean (some null_value) = none
as_boolean (some array_value) = none
as_boolean (some (boolean b)) = some b
as_boolean (some (number n)) = none
as_boolean (some (string s)) = none
as_boolean (some (object fs)) = none

-- `value === "camera" || value === "screen_share"`
abbrev named_feature : Text → Option StageFeature
named_feature s =
    if text_eq s (codes "camera")
    then some camera
    else if text_eq s (codes "screen_share")
    then some screen_share
    else none

abbrev and_option : {A B : Type 0} → Option A → (A → Option B) → Option B
and_option none f = none
and_option (some a) f = f a

abbrev text_field : Text → Fields → Option Text
text_field k fs = as_text (lookup k fs)

abbrev feature_field : Fields → Option StageFeature
feature_field fs = and_option (text_field (codes "feature") fs) named_feature

unfoldable pub parse_request : Fields → Option StageRequestPayload
unfolding lookup text_eq
parse_request fs = and_option (text_field (codes "room_id") fs) λ room.
    and_option (text_field (codes "request_id") fs) λ request.
      and_option (text_field (codes "target_user") fs) λ target.
        and_option (feature_field fs) λ wanted.
          and_option (as_number (lookup (codes "created_at") fs)) λ created. some (record {
            room_id = room;
            request_id = request;
            target_user = target;
            feature = wanted;
            created_at = created;
          })

unfoldable pub parse_decision : Fields → Option StageDecisionPayload
unfolding lookup text_eq
parse_decision fs = and_option (text_field (codes "room_id") fs) λ room.
    and_option (text_field (codes "request_id") fs) λ request.
      and_option (text_field (codes "target_user") fs) λ target.
        and_option (feature_field fs) λ wanted.
          and_option (as_boolean (lookup (codes "approved") fs)) λ verdict.
            and_option (text_field (codes "decided_by") fs) λ judge.
              and_option (as_number (lookup (codes "created_at") fs)) λ created. some (record {
                room_id = room;
                request_id = request;
                target_user = target;
                feature = wanted;
                approved = verdict;
                decided_by = judge;
                created_at = created;
              })

abbrev requested : Option StageRequestPayload → Option StageControlPayload
requested none = none
requested (some r) = some (stage_request r)

abbrev decided : Option StageDecisionPayload → Option StageControlPayload
decided none = none
decided (some d) = some (stage_decision d)

-- The tests on the value that `JSON.parse` gave.
unfoldable pub parse_stage_value : Json → Option StageControlPayload
unfolding parse_request parse_decision lookup text_eq
parse_stage_value null_value = none
parse_stage_value array_value = none
parse_stage_value (boolean b) = none
parse_stage_value (number n) = none
parse_stage_value (string s) = none
parse_stage_value (object fs) = and_option (text_field (codes "type") fs) λ kind.
    if text_eq kind (codes "stage.request")
    then requested (parse_request fs)
    else if text_eq kind (codes "stage.decision")
    then decided (parse_decision fs)
    else none

-- `!value`, turned round: a missing field, `null`, `false`, 0 and the empty text are falsy.
unfoldable pub is_truthy : Option Json → Bool
unfolding is_empty
is_truthy none = false
is_truthy (some null_value) = false
is_truthy (some array_value) = true
is_truthy (some (boolean b)) = b
is_truthy (some (number n)) = not (eqb_ℤ n (pos 0))
is_truthy (some (string s)) = not (is_empty s)
is_truthy (some (object fs)) = true

abbrev is_chat_type : Option Text → Bool
is_chat_type none = false
is_chat_type (some kind) = text_eq kind (codes "chat.message")

-- The object that passes for a chat message: the types of its fields are not tested.
unfoldable pub parse_chat_value : Json → Option Fields
unfolding is_truthy lookup text_eq
parse_chat_value null_value = none
parse_chat_value array_value = none
parse_chat_value (boolean b) = none
parse_chat_value (number n) = none
parse_chat_value (string s) = none
parse_chat_value (object fs) =
    if is_chat_type (text_field (codes "type") fs)
      && (is_truthy (lookup (codes "room_id") fs)
          && (is_truthy (lookup (codes "client_id") fs)
              && (is_truthy (lookup (codes "user_name") fs)
                  && is_truthy (lookup (codes "text") fs))))
    then some fs
    else none

-- The objects that `publishStageControl` writes.
abbrev feature_value : StageFeature → Json
feature_value camera = string (codes "camera")
feature_value screen_share = string (codes "screen_share")

unfoldable pub stage_value : StageControlPayload → Json
stage_value (stage_request r) = object (
    field (codes "type") (string (codes "stage.request")) (
      field (codes "room_id") (string r.room_id) (
        field (codes "request_id") (string r.request_id) (
          field (codes "target_user") (string r.target_user) (
            field (codes "feature") (feature_value r.feature)
              (field (codes "created_at") (number r.created_at) no_fields))))))
stage_value (stage_decision d) = object (
    field (codes "type") (string (codes "stage.decision")) (
      field (codes "room_id") (string d.room_id) (
        field (codes "request_id") (string d.request_id) (
          field (codes "target_user") (string d.target_user) (
            field (codes "feature") (feature_value d.feature) (
              field (codes "approved") (boolean d.approved) (
                field (codes "decided_by") (string d.decided_by)
                  (field (codes "created_at") (number d.created_at) no_fields))))))))

module _ (codec : Codec) where
  unfoldable pub parse_stage_control : List ℕ → Option StageControlPayload
  unfolding parse_stage_value
  parse_stage_control payload = and_option (codec.decode payload) parse_stage_value

  unfoldable pub parse_realtime_chat : List ℕ → Option Fields
  unfolding parse_chat_value
  parse_realtime_chat payload = and_option (codec.decode payload) parse_chat_value

  unfoldable pub write_stage_control : StageControlPayload → List ℕ
  unfolding stage_value
  write_stage_control p = codec.encode (stage_value p)

  parse-stage_value : (p : StageControlPayload) → parse_stage_value (stage_value p) ≡ some p
  unfolding parse_stage_value stage_value parse_request parse_decision lookup text_eq
  parse-stage_value (stage_request r) = ground arith
  parse-stage_value (stage_decision d) = ground arith

  stage_value-distinct : (p : StageControlPayload) → has_distinct_keys (stage_value p) ≡ true
  unfolding stage_value has_distinct_keys fields_distinct text_eq
  stage_value-distinct (stage_request r) = ground arith
  stage_value-distinct (stage_decision d) = ground arith

  -- What one participant writes about the stage, another one reads unchanged.
  pub parse-write_stage_control :
      (p : StageControlPayload) → parse_stage_control (write_stage_control p) ≡ some p
  unfolding parse_stage_control write_stage_control
  parse-write_stage_control p =
      rw (codec.decode-encode (stage_value p) (stage_value-distinct p)) (parse-stage_value p)
