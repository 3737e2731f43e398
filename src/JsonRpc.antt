-- ===== src/JsonRpc.antt =====
-- src/protocol/codec/jsonRpc.ts: the JSON envelope {sid, op, d}. The business values of a message
-- are `Option JsonValue`, `none` for `undefined`. A step that throws is `none`: each is caught, and
-- gives `undefined`.
pub mod RoundTrip
use axtp_ts_runtime.Common.{
  ℕ, ◌%◌, ◌^◌, List, [], ◌∷◌, Option, none, some, Bool, true, false, not, ◌&&◌, ◌||◌, ◌==◌, leb,
  ltb, if◌then◌else◌,
}
use axtp_ts_runtime.Model.Rpc.{
  Text, RpcMessage, hello, identify, identified, reidentify, event, request, response,
}
use axtp_ts_runtime.Model.Json.{
  JsonValue, JsonFields, null, boolean, number, other_number, text, object, no_fields, field, units,
  property, property_of, JsonPlatform,
}

abbrev pub Value : Type 0
Value = Option JsonValue

infixl 5 ◌>>=◌
abbrev pub ◌>>=◌ {ℓ κ} : {A : Type ℓ} {B : Type κ} → Option A → (A → Option B) → Option B
none >>= f = none
some a >>= f = f a

abbrev pub no_object : JsonValue
no_object = object no_fields

unfoldable pub as_object : Option JsonValue → Option JsonFields
as_object (some (object fields)) = some fields
as_object _ = none

unfoldable pub parse_op : JsonValue → Option ℕ
parse_op envelope = elim (property_of (units "op") envelope) [
  | some (number op) ↦ if leb op 0xff then some op else none
  | _ ↦ none
]

-- `typeof v === "string" ? v : ""`
abbrev pub text_or_empty : Option JsonValue → Text
text_or_empty (some (text t)) = t
text_or_empty _ = []

-- `typeof v === "string" ? v : undefined`
abbrev pub text_or_none : Option JsonValue → Option Text
text_or_none (some (text t)) = some t
text_or_none _ = none

unfoldable pub parse_sid : JsonValue → Text
parse_sid envelope = text_or_empty (property_of (units "sid") envelope)

unfoldable pub parse_request_id : JsonFields → ℕ
parse_request_id d = elim (property (units "id") d) [
  | some (number id) ↦ if ltb 0 id && leb id 0xffffffff then id else 0
  | _ ↦ 0
]

unfoldable pub checked_status : Option JsonValue → Option JsonValue → Option ℕ
checked_status (some (boolean ok)) (some (number code)) =
    if not (leb code 0xffffffff)
    then none
    else if ok
    then (if code == 0 then some (code % 2 ^ 32) else none)
    else if code == 0
    then none
    else some (code % 2 ^ 32)
checked_status _ _ = none

unfoldable pub parse_response_status : Option JsonValue → Option ℕ
unfolding as_object checked_status
parse_response_status value = do
  status ← as_object value
  checked_status (property (units "ok") status) (property (units "code") status)

-- `value ?? {}`
unfoldable pub or_object : Option JsonValue → Option JsonValue
or_object none = some no_object
or_object (some null) = some no_object
or_object (some value) = some value

-- `typeof v === "number" ? v >>> 0 : 0`
unfoldable pub seed_of : JsonPlatform → Option JsonValue → ℕ
seed_of json (some (number n)) = n % 2 ^ 32
seed_of json (some (other_number bits)) = json.to_uint32 bits % 2 ^ 32
seed_of json _ = 0

-- The `switch` on the op.
unfoldable pub decode_body : JsonPlatform → ℕ → Text → JsonFields → Option (RpcMessage Value)
unfolding parse_request_id parse_response_status or_object seed_of
decode_body json op sid d =
    if op == 0x00
    then some (hello sid (text_or_none (property (units "axtpVersion") d)))
    else if op == 0x02
    then some (
        identify sid (seed_of json (property (units "randomSeed") d))
          (text_or_none (property (units "eventMasks") d)))
    else if op == 0x03
    then some (identified sid)
    else if op == 0x04
    then some (reidentify sid (text_or_none (property (units "eventMasks") d)))
    else if op == 0x06
    then some (
        event sid (text_or_empty (property (units "event") d))
          (or_object (property (units "data") d)))
    else if op == 0x07
    then some (
        request sid (parse_request_id d) (text_or_empty (property (units "method") d))
          (or_object (property (units "params") d)))
    else if op == 0x08
    then (do
      status ← parse_response_status (property (units "status") d)
      some (response sid (parse_request_id d) status (property (units "result") d)))
    else none

unfoldable pub decode_envelope : JsonPlatform → JsonValue → Option (RpcMessage Value)
unfolding as_object parse_op parse_sid decode_body
decode_envelope json envelope = do
  op ← parse_op envelope
  d ← as_object (property_of (units "d") envelope)
  decode_body json op (parse_sid envelope) d

unfoldable pub decode_json_rpc : JsonPlatform → List ℕ → Option (RpcMessage Value)
unfolding decode_envelope
decode_json_rpc json bytes = json.parse bytes >>= λ envelope. decode_envelope json envelope

-- A property that is written only if its value is there.
abbrev pub optional : Text → Option JsonValue → JsonFields
optional key none = no_fields
optional key (some value) = field key value no_fields

abbrev pub optional_text : Text → Option Text → JsonFields
optional_text key none = no_fields
optional_text key (some t) = field key (text t) no_fields

-- `if (msg.eventMasks)`: an empty text is left out, too.
abbrev pub masks_field : Option Text → JsonFields
masks_field none = no_fields
masks_field (some []) = no_fields
masks_field (some (c ∷ cs)) = field (units "eventMasks") (text (c ∷ cs)) no_fields

-- `{ sid, op, d }`
abbrev pub envelope_of : Text → ℕ → JsonFields → JsonValue
envelope_of sid op d = object (
    field (units "sid") (text sid)
      (field (units "op") (number op) (field (units "d") (object d) no_fields)))

abbrev pub status_object : ℕ → JsonValue
status_object status =
    object
      (field (units "ok") (boolean (status == 0)) (field (units "code") (number status) no_fields))

unfoldable pub to_envelope : RpcMessage Value → JsonValue
to_envelope (hello sid version) = envelope_of sid 0x00 (optional_text (units "axtpVersion") version)
to_envelope (identify sid seed masks) =
    envelope_of sid 0x02 (field (units "randomSeed") (number seed) (masks_field masks))
to_envelope (identified sid) = envelope_of sid 0x03 no_fields
to_envelope (reidentify sid masks) = envelope_of sid 0x04 (optional_text (units "eventMasks") masks)
to_envelope (event sid name value) =
    envelope_of sid 0x06 (field (units "event") (text name) (optional (units "data") value))
to_envelope (request sid id method params) = envelope_of sid 0x07 (
    field (units "id") (number id)
      (field (units "method") (text method) (optional (units "params") params)))
to_envelope (response sid id status result) = envelope_of sid 0x08 (
    field (units "id") (number id)
      (field (units "status") (status_object status) (optional (units "result") result)))

unfoldable pub encode_json_rpc : JsonPlatform → RpcMessage Value → List ℕ
unfolding to_envelope
encode_json_rpc json msg = json.stringify (to_envelope msg)

unfoldable pub encode_json_body : JsonPlatform → Value → List ℕ
unfolding or_object
encode_json_body json value = elim (or_object value) [
  | none ↦ json.stringify no_object
  | some v ↦ json.stringify v
]

unfoldable pub decode_json_body : JsonPlatform → List ℕ → Value
decode_json_body json [] = some no_object
decode_json_body json (b ∷ bs) = json.parse (b ∷ bs)
