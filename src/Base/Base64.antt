-- ===== src/Base/Base64.antt =====
-- `base64.URLEncoding` of Go's package encoding/base64, on the bytes of texts: `EncodeToString`, and
-- `DecodeString`, which skips line ends anywhere and refuses all else that is no encoding.
use multi_tenant_messaging.Base.{
  ℕ, List, Option, [], ◌∷◌, none, some, Bool, true, false, if◌then◌else◌, ◌≡◌, ◌<◌, ◌==◌, ltb, leb,
  ◌+◌, ◌-◌, ◌*◌, ◌/◌, ◌%◌, ◌&&◌, ◌||◌, All, arith, refl, ap,
}

-- The character of six bits: letters, digits, `-` and `_`.
abbrev symbol : ℕ → ℕ
symbol n =
    if ltb n 26
    then n + b'A'
    else if ltb n 52
    then n - 26 + b'a'
    else if ltb n 62
    then n - 52 + b'0'
    else if n == 62
    then b'-'
    else b'_'

abbrev value_of : ℕ → Option ℕ
value_of c =
    if leb b'A' c && leb c b'Z'
    then some (c - b'A')
    else if leb b'a' c && leb c b'z'
    then some (c - b'a' + 26)
    else if leb b'0' c && leb c b'9'
    then some (c - b'0' + 52)
    else if c == b'-'
    then some 62
    else if c == b'_'
    then some 63
    else none

value_of-symbol : (n : ℕ) → n < 64 → value_of (symbol n) ≡ some n
value_of-symbol n h = ground arith

-- Three bytes are four characters; a rest of one or two bytes is filled with `=`.
unfoldable pub encode : List ℕ → List ℕ
encode [] = []
encode (a ∷ []) = symbol (a / 4) ∷ symbol (a % 4 * 16) ∷ b'=' ∷ b'=' ∷ []
encode (a ∷ b ∷ []) =
    symbol (a / 4) ∷ symbol (a % 4 * 16 + b / 16) ∷ symbol (b % 16 * 4) ∷ b'=' ∷ []
encode (a ∷ b ∷ c ∷ rest) =
    symbol (a / 4)
    ∷ symbol (a % 4 * 16 + b / 16)
    ∷ symbol (b % 16 * 4 + c / 64)
    ∷ symbol (c % 64)
    ∷ encode rest

abbrev without_line_ends : List ℕ → List ℕ
without_line_ends [] = []
without_line_ends (c ∷ cs) =
    if c == 10 || c == 13 then without_line_ends cs else c ∷ without_line_ends cs

abbrev pub is_empty : List ℕ → Bool
is_empty [] = true
is_empty (c ∷ cs) = false

abbrev one_byte : Option ℕ → Option ℕ → Option (List ℕ)
one_byte (some a) (some b) = some ((a * 4 + b / 16) ∷ [])
one_byte _ _ = none

abbrev two_bytes : Option ℕ → Option ℕ → Option ℕ → Option (List ℕ)
two_bytes (some a) (some b) (some c) = some ((a * 4 + b / 16) ∷ (b % 16 * 16 + c / 4) ∷ [])
two_bytes _ _ _ = none

abbrev three_bytes : Option ℕ → Option ℕ → Option ℕ → Option ℕ → Option (List ℕ) → Option (List ℕ)
three_bytes (some a) (some b) (some c) (some d) (some rest) =
    some ((a * 4 + b / 16) ∷ (b % 16 * 16 + c / 4) ∷ (c % 4 * 64 + d) ∷ rest)
three_bytes _ _ _ _ _ = none

-- Padding ends the text. Bits of the last symbol that belong to no byte are not looked at.
decode_symbols : List ℕ → Option (List ℕ)
decode_symbols [] = some []
decode_symbols (w ∷ []) = none
decode_symbols (w ∷ x ∷ []) = none
decode_symbols (w ∷ x ∷ y ∷ []) = none
decode_symbols (w ∷ x ∷ y ∷ z ∷ rest) =
    let further = decode_symbols rest in
    if y == b'='
    then if z == b'=' && is_empty rest then one_byte (value_of w) (value_of x) else none
    else if z == b'='
    then if is_empty rest then two_bytes (value_of w) (value_of x) (value_of y) else none
    else three_bytes (value_of w) (value_of x) (value_of y) (value_of z) further

unfoldable pub decode : List ℕ → Option (List ℕ)
unfolding decode_symbols
decode cs = decode_symbols (without_line_ends cs)

symbol-plain : (n : ℕ) → n < 64 → (symbol n == b'=') ≡ false
symbol-plain n h = ground arith

symbol-in_line : (n : ℕ) → n < 64 → (symbol n == 10 || symbol n == 13) ≡ false
symbol-in_line n h = ground arith

high_part : (a b : ℕ) → a < 256 → b < 16 → a / 4 * 4 + (a % 4 * 16 + b) / 16 ≡ a
high_part a b h k = omega arith

middle_part :
    (a b c : ℕ) → b < 256 → c < 4 → (a % 4 * 16 + b / 16) % 16 * 16 + (b % 16 * 4 + c) / 4 ≡ b
middle_part a b c h k = omega arith

low_part : (b c : ℕ) → c < 256 → (b % 16 * 4 + c / 64) % 4 * 64 + c % 64 ≡ c
low_part b c h = omega arith

abbrev pub AreBytes : List ℕ → Type 0
AreBytes = All λ b. b < 256

decode_symbols-encode : (bs : List ℕ) → AreBytes bs → decode_symbols (encode bs) ≡ some bs
unfolding encode decode_symbols
decode_symbols-encode [] h = refl
decode_symbols-encode (a ∷ []) (ha, _) =
    rw (value_of-symbol (a / 4) (omega arith), value_of-symbol (a % 4 * 16) (omega arith))
      (ap (λ x. some (x ∷ [])) (omega arith))
decode_symbols-encode (a ∷ b ∷ []) (ha, (hb, _)) =
    rw
      (
        symbol-plain (b % 16 * 4) (omega arith),
        value_of-symbol (a / 4) (omega arith),
        value_of-symbol (a % 4 * 16 + b / 16) (omega arith),
        value_of-symbol (b % 16 * 4) (omega arith),
        high_part a (b / 16) ha (omega arith),
      )
      (ap (λ x. some (a ∷ x ∷ [])) (omega arith))
decode_symbols-encode (a ∷ b ∷ c ∷ rest) (ha, (hb, (hc, h))) =
    rw
      (
        symbol-plain (b % 16 * 4 + c / 64) (omega arith),
        symbol-plain (c % 64) (omega arith),
        value_of-symbol (a / 4) (omega arith),
        value_of-symbol (a % 4 * 16 + b / 16) (omega arith),
        value_of-symbol (b % 16 * 4 + c / 64) (omega arith),
        value_of-symbol (c % 64) (omega arith),
        decode_symbols-encode rest h,
        high_part a (b / 16) ha (omega arith),
        middle_part a b (c / 64) hb (omega arith),
        low_part b c hc,
      )
      refl

without_line_ends-encode : (bs : List ℕ) → AreBytes bs → without_line_ends (encode bs) ≡ encode bs
unfolding encode
without_line_ends-encode [] h = refl
without_line_ends-encode (a ∷ []) (ha, _) =
    rw (symbol-in_line (a / 4) (omega arith), symbol-in_line (a % 4 * 16) (omega arith)) refl
without_line_ends-encode (a ∷ b ∷ []) (ha, (hb, _)) =
    rw
      (
        symbol-in_line (a / 4) (omega arith),
        symbol-in_line (a % 4 * 16 + b / 16) (omega arith),
        symbol-in_line (b % 16 * 4) (omega arith),
      )
      refl
without_line_ends-encode (a ∷ b ∷ c ∷ rest) (ha, (hb, (hc, h))) =
    rw
      (
        symbol-in_line (a / 4) (omega arith),
        symbol-in_line (a % 4 * 16 + b / 16) (omega arith),
        symbol-in_line (b % 16 * 4 + c / 64) (omega arith),
        symbol-in_line (c % 64) (omega arith),
        without_line_ends-encode rest h,
      )
      refl

pub decode-encode : (bs : List ℕ) → AreBytes bs → decode (encode bs) ≡ some bs
unfolding decode
decode-encode bs h = rw (without_line_ends-encode bs h) (decode_symbols-encode bs h)
