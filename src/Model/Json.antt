-- ===== src/Model/Json.antt =====
-- The parsed JSON values of src/protocol/codec/jsonRpc.ts, type JsonValue, and what the code calls
-- of the platform to read and write them.
use Prim.Native.Char.{code}
use Prim.Native.String.{String}
use axtp_ts_runtime.Common.{ℕ, List, [], ◌∷◌, Bool, Option, none, some, ◌≡◌, if◌then◌else◌}
use axtp_ts_runtime.Model.Rpc.{Text, same_text}

-- A number that is a whole one and not negative (0 and -0 alike) is a ℕ; any other is the ℕ of the
-- bits of its double. An object is its list of properties.
mutual
  pub data JsonValue : Type 0 where
    null : JsonValue
    boolean : Bool → JsonValue
    number : ℕ → JsonValue
    other_number : ℕ → JsonValue
    text : Text → JsonValue
    array : JsonItems → JsonValue
    object : JsonFields → JsonValue

  pub data JsonItems : Type 0 where
    no_items : JsonItems
    item : JsonValue → JsonItems → JsonItems

  pub data JsonFields : Type 0 where
    no_fields : JsonFields
    field : Text → JsonValue → JsonFields → JsonFields

-- A literal of the source, ASCII.
abbrev pub units : String → Text
units String.[] = []
units (String.◌∷◌ c s) = code c ∷ units s

-- `object.key`
abbrev pub property : Text → JsonFields → Option JsonValue
property key no_fields = none
property key (field name value rest) =
    let later = property key rest in if same_text name key then some value else later

-- `object.key`, where a value that is no object has none of the properties that the code reads.
abbrev pub property_of : Text → JsonValue → Option JsonValue
property_of key (object fields) = property key fields
property_of key _ = none

-- What the platform gives: `JSON.parse` behind `TextDecoder`, `none` where it throws; `TextEncoder`
-- behind `JSON.stringify`; and `>>> 0` on a number that is no ℕ.
pub record JsonPlatform : Type 0 where
  pub parse : List ℕ → Option JsonValue
  pub stringify : JsonValue → List ℕ
  pub to_uint32 : ℕ → ℕ

-- What is printed parses as the same value.
abbrev pub Survives : JsonPlatform → JsonValue → Type 0
Survives json value = json.parse (json.stringify value) ≡ some value
