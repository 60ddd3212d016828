-- ===== src/Handlers/Cursor.antt =====
-- `cursorData`, `encodeCursor` and `decodeCursor` of internal/handler/message_handler.go, on the bytes of texts. The
-- handlers do not call them: their cursors are those of `MessageService`.
use multi_tenant_messaging.Base.{
  List, Option, ℕ, String, [], if◌then◌else◌, some, ◌≡◌, Option-cases, false, inl, ◌∷◌, inr, refl,
}
use multi_tenant_messaging.Base.Base64.{encode, is_empty, AreBytes, decode, decode-encode}
use mathlib.Core.Option.{none}

-- Times are microseconds.
pub record CursorData : Type 0 where
  pub created_at : ℕ
  pub id : String

-- What encoding/json makes of the struct, and reads of bytes: a struct is never an empty text, and a time that
-- is marshalled reads back. `marshal` fails on a year after 9999.
pub record CursorJson : Type 0 where
  pub marshal : CursorData → Option (List ℕ)
  pub unmarshal : List ℕ → Option CursorData
  pub marshal-bytes :
      (c : CursorData) (bs : List ℕ) → marshal c ≡ some bs → AreBytes bs × (is_empty bs ≡ false)
  pub unmarshal-marshal :
      (c : CursorData) (bs : List ℕ) → marshal c ≡ some bs → unmarshal bs ≡ some c

-- The results of `decodeCursor`: none, an error, or the data.
pub data Decoded : Type 0 where
  no_data undecodable : Decoded
  data_of : CursorData → Decoded

abbrev or_empty : Option (List ℕ) → List ℕ
or_empty none = []
or_empty (some bs) = bs

-- `encodeCursor`: the error of `Marshal` is ignored.
pub encode_cursor : CursorJson → CursorData → List ℕ
encode_cursor j c = encode (or_empty (j.marshal c))

abbrev unmarshalled : Option CursorData → Decoded
unmarshalled none = undecodable
unmarshalled (some c) = data_of c

abbrev from_bytes : CursorJson → Option (List ℕ) → Decoded
from_bytes j none = undecodable
from_bytes j (some bs) = unmarshalled (j.unmarshal bs)

-- `decodeCursor`
pub decode_cursor : CursorJson → List ℕ → Decoded
decode_cursor j text = if is_empty text then no_data else from_bytes j (decode text)

abbrev pub told : CursorData → Option (List ℕ) → Decoded
told c none = no_data
told c (some bs) = data_of c

encode_nonempty : (bs : List ℕ) → is_empty bs ≡ false → is_empty (encode bs) ≡ false
unfolding encode
encode_nonempty [] h = h
encode_nonempty (a ∷ []) h = refl
encode_nonempty (a ∷ b ∷ []) h = refl
encode_nonempty (a ∷ b ∷ c ∷ bs) h = refl

-- `decodeCursor` gives back what `encodeCursor` was given, to the full precision of its time; where the time
-- cannot be marshalled, the text is empty and stands for no cursor.
pub decode_cursor-encode_cursor :
    (j : CursorJson) (c : CursorData) → decode_cursor j (encode_cursor j c) ≡ told c (j.marshal c)
unfolding decode_cursor encode_cursor encode
decode_cursor-encode_cursor j c = elim (Option-cases (j.marshal c)) [
  | inl fails ↦ rw fails refl
  | inr (bs, e) ↦
      let (bytes, nonempty) = j.marshal-bytes c bs e in
      rw (e, encode_nonempty bs nonempty, decode-encode bs bytes, j.unmarshal-marshal c bs e) refl
]
