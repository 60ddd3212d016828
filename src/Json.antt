-- ===== src/Json.antt =====
-- What the program uses of encoding/json: which texts decode into a map, and how a text decodes
-- into the `Message` of internal/tenant/manager.go. A text stands here as what the parser reads in it.
use Prim.Native.Char.{code}
use multi_tenant_messaging.Base.{
  ℕ, ◌+◌, ◌^◌, ◌≡◌, refl, Bool, true, false, ◌&&◌, ◌||◌, List, [], ◌∷◌, Option, none, some, String,
  arith, ltb, leb, ◌==◌, if◌then◌else◌, str_eq,
}
use multi_tenant_messaging.Base.Int.{ℤ, pos, negsuc}

mutual
  pub data Json : Type 0 where
    null : Json
    boolean : Bool → Json
    integer : ℤ → Json
    decimal : String → Json
    text : String → Json
    array : Items → Json
    object : Fields → Json

  pub data Items : Type 0 where
    nil : Items
    cons : Json → Items → Items

  pub data Fields : Type 0 where
    end : Fields
    field : String → Json → Fields → Fields

-- A byte slice that should hold a JSON value: `absent` is the nil slice, `malformed` any other text
-- that the parser refuses.
pub data JsonText : Type 0 where
  absent malformed : JsonText
  value : Json → JsonText

-- `json.Unmarshal(text, &m)` for a `map[string]interface{}`: an object, or `null`, which sets nothing.
abbrev pub decodes_to_map : JsonText → Bool
decodes_to_map (value (object fs)) = true
decodes_to_map (value null) = true
decodes_to_map _ = false

pub record Message : Type 0 where
  pub id : String
  pub tenant_id : String
  pub payload : JsonText
  pub timestamp : ℤ

-- The zero value of the struct; its payload is the nil slice.
abbrev pub zero_message : Message
zero_message = record { id = ""; tenant_id = ""; payload = absent; timestamp = pos 0 }

-- Field names match with letter case folded; the long s and the Kelvin sign fold to letters too.
abbrev fold_code : ℕ → ℕ
fold_code c =
    if leb b'A' c && leb c b'Z'
    then c + 32
    else if c == 0x17f
    then b's'
    else if c == 0x212a
    then b'k'
    else c

abbrev fold_codes : String → List ℕ
fold_codes String.[] = []
fold_codes (String.◌∷◌ c s) = fold_code (code c) ∷ fold_codes s

abbrev codes_eq : List ℕ → List ℕ → Bool
codes_eq [] [] = true
codes_eq (a ∷ as') (b ∷ bs) = a == b && codes_eq as' bs
codes_eq _ _ = false

-- An exact match of the name, or one up to letter case.
abbrev names : String → String → Bool
names key name = str_eq key name || codes_eq (fold_codes key) (fold_codes name)

-- The message so far, and whether every value so far had the type of its field: a value of another
-- type is skipped, the rest is decoded, and an error comes back at the end.
abbrev Decoding : Type 0
Decoding = Message × Bool

abbrev store_id : Json → Decoding → Decoding
store_id (text s) (m, fits) = (record m { id = s }, fits)
store_id null (m, fits) = (m, fits)
store_id _ (m, fits) = (m, false)

abbrev store_tenant_id : Json → Decoding → Decoding
store_tenant_id (text s) (m, fits) = (record m { tenant_id = s }, fits)
store_tenant_id null (m, fits) = (m, fits)
store_tenant_id _ (m, fits) = (m, false)

abbrev pub fits_int64 : ℤ → Bool
fits_int64 (pos n) = ltb n (2 ^ 63)
fits_int64 (negsuc n) = ltb n (2 ^ 63)

abbrev store_timestamp : Json → Decoding → Decoding
store_timestamp (integer z) (m, fits) =
    if fits_int64 z then (record m { timestamp = z }, fits) else (m, false)
store_timestamp null (m, fits) = (m, fits)
store_timestamp _ (m, fits) = (m, false)

-- A raw message takes any value as it stands, `null` included. Unknown names are ignored.
abbrev store_field : String → Json → Decoding → Decoding
store_field key v (m, fits) =
    if names key "id"
    then store_id v (m, fits)
    else if names key "tenant_id"
    then store_tenant_id v (m, fits)
    else if names key "payload"
    then (record m { payload = value v }, fits)
    else if names key "timestamp"
    then store_timestamp v (m, fits)
    else (m, fits)

abbrev decode_fields : Fields → Decoding → Decoding
decode_fields end d = d
decode_fields (field key v fs) d = decode_fields fs (store_field key v d)

abbrev accepted_message : Decoding → Option Message
accepted_message (m, true) = some m
accepted_message (m, false) = none

-- `json.Unmarshal(body, &message)`.
unfoldable pub unmarshal_message : JsonText → Option Message
unmarshal_message (value (object fs)) = accepted_message (decode_fields fs (zero_message, true))
unmarshal_message (value null) = some zero_message
unmarshal_message _ = none

-- The JSON value that a raw message is written as: itself, `null` for the nil slice.
abbrev raw_value : JsonText → Option Json
raw_value absent = some null
raw_value malformed = none
raw_value (value v) = some v

abbrev pub message_object : Message → Json → Json
message_object m v = object (
    field "id" (text m.id) (
      field "tenant_id" (text m.tenant_id)
        (field "payload" v (field "timestamp" (integer m.timestamp) end))))

-- `json.Marshal(message)` fails where the raw payload is no JSON value.
unfoldable pub marshal_message : Message → Option JsonText
marshal_message m = elim (raw_value m.payload) [
  | none ↦ none
  | some v ↦ some (value (message_object m v))
]

folded_name :
    unmarshal_message (value (object (field "ID" (text "m1") (field "payload" (object end) end))))
    ≡ some (record { id = "m1"; tenant_id = ""; payload = value (object end); timestamp = pos 0 })
unfolding unmarshal_message
folded_name = refl

wrong_type : unmarshal_message (value (object (field "id" (integer (pos 3)) end))) ≡ none
unfolding unmarshal_message
wrong_type = refl

-- A message whose payload is a JSON value is decoded as it was encoded.
pub unmarshal-marshal :
    (m : Message)
    → fits_int64 m.timestamp ≡ true
    → (v : Json) → m.payload ≡ value v
    → (t : JsonText) → marshal_message m ≡ some t
    → unmarshal_message t ≡ some m
unfolding unmarshal_message marshal_message
unmarshal-marshal m fits v e t h = ground arith
