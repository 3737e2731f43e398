-- ===== src/JsonRpc/RoundTrip.antt =====
-- What is encoded is decoded, up to what the source leaves out on purpose.
use axtp_ts_runtime.Common.{◌%◌, ◌^◌, ◌≤◌, ◌<◌, [], ◌∷◌, none, some, ◌≡◌, refl, ap, ◌∙◌, arith}
use axtp_ts_runtime.Model.Rpc.{
  RpcMessage, hello, identify, identified, reidentify, event, request, response,
}
use axtp_ts_runtime.Model.Json.{JsonPlatform, Survives}
use axtp_ts_runtime.JsonRpc.{
  Value, or_object, decode_envelope, decode_json_rpc, to_envelope, encode_json_rpc, ◌>>=◌,
}

-- The message that the other end gets: a missing value or null is an empty object, but a missing
-- result stays missing; an empty event mask is none on an Identify; the seed is 32 bits.
abbrev pub received : RpcMessage Value → RpcMessage Value
received (hello sid version) = hello sid version
received (identify sid seed none) = identify sid (seed % 2 ^ 32) none
received (identify sid seed (some [])) = identify sid (seed % 2 ^ 32) none
received (identify sid seed (some (c ∷ cs))) = identify sid (seed % 2 ^ 32) (some (c ∷ cs))
received (identified sid) = identified sid
received (reidentify sid masks) = reidentify sid masks
received (event sid name value) = event sid name (or_object value)
received (request sid id method params) = request sid id method (or_object params)
received (response sid id status result) = response sid id status result

-- The ids and the status are ones that the decoder takes.
abbrev pub HasJsonNumbers : RpcMessage Value → Type 0
HasJsonNumbers (request sid id method params) = (1 ≤ id) × (id < 2 ^ 32)
HasJsonNumbers (response sid id status result) = (1 ≤ id) × (id < 2 ^ 32) × (status < 2 ^ 32)
HasJsonNumbers _ = Unit {0}

decode-to_envelope :
    (json : JsonPlatform) (msg : RpcMessage Value)
    → HasJsonNumbers msg
    → decode_envelope json (to_envelope msg) ≡ some (received msg)
unfolding decode_envelope to_envelope
decode-to_envelope json (hello sid none) h = refl
decode-to_envelope json (hello sid (some version)) h = refl
decode-to_envelope json (identify sid seed none) h = refl
decode-to_envelope json (identify sid seed (some [])) h = refl
decode-to_envelope json (identify sid seed (some (c ∷ cs))) h = refl
decode-to_envelope json (identified sid) h = refl
decode-to_envelope json (reidentify sid none) h = refl
decode-to_envelope json (reidentify sid (some masks)) h = refl
decode-to_envelope json (event sid name none) h = refl
decode-to_envelope json (event sid name (some value)) h = refl
decode-to_envelope json (request sid id method none) h = ground (arith, h.0, h.1)
decode-to_envelope json (request sid id method (some params)) h = ground (arith, h.0, h.1)
decode-to_envelope json (response sid id status none) h = ground (arith, h.0, h.1, h.2)
decode-to_envelope json (response sid id status (some result)) h = ground (arith, h.0, h.1, h.2)

-- On a platform on which the envelope of a message survives printing and parsing, a message with
-- ids and a status in range, encoded and decoded again, is the message up to what the source leaves
-- out: null or missing values become empty objects, and an empty mask on an Identify none.
pub decode_json_rpc-encode_json_rpc :
    (json : JsonPlatform) (msg : RpcMessage Value)
    → Survives json (to_envelope msg)
    → HasJsonNumbers msg
    → decode_json_rpc json (encode_json_rpc json msg) ≡ some (received msg)
unfolding decode_json_rpc encode_json_rpc
decode_json_rpc-encode_json_rpc json msg law h =
    ap (λ o. o >>= λ envelope. decode_envelope json envelope) law ∙ decode-to_envelope json msg h
