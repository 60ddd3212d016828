-- ===== src/Base/Text.antt =====
-- What is used of Go's packages strings and strconv: `strings.SplitN(s, " ", 2)`, `strings.ToLower` as
-- far as a comparison with an ASCII word goes, and `strconv.Atoi`.
use multi_tenant_messaging.Base.{
  ℕ, Option, String, if◌then◌else◌, ◌≡◌, Bool, leb, none, some, ltb, true, ◌&&◌, ◌*◌, ◌==◌, ◌^◌,
  false, ◌+◌, ◌-◌, refl,
}
use Prim.Native.Char.{Char, code}
use multi_tenant_messaging.Base.Int.{ℤ, pos, negsuc, sub_ℕ}

-- The code of an ASCII letter in lower case.
abbrev lower_code : ℕ → ℕ
lower_code c = if leb b'A' c && leb c b'Z' then c + 32 else c

-- Whether a text in lower case is `word`, which is in lower case. No other letter becomes an ASCII letter in
-- lower case but U+0130 and U+212A, an i and a k.
abbrev pub lower_is : String → String → Bool
lower_is String.[] String.[] = true
lower_is String.[] (String.◌∷◌ d word) = false
lower_is (String.◌∷◌ c s) String.[] = false
lower_is (String.◌∷◌ c s) (String.◌∷◌ d word) = lower_code (code c) == code d && lower_is s word

abbrev cons_first : Char → Option (String × String) → Option (String × String)
cons_first c none = none
cons_first c (some (a, b)) = some (String.◌∷◌ c a, b)

-- The two parts around the first space; `none` where there is a single part.
unfoldable pub split_space : String → Option (String × String)
split_space String.[] = none
split_space (String.◌∷◌ c s) =
    let rest = split_space s in if code c == b' ' then some (String.[], s) else cons_first c rest

abbrev digit : Char → Option ℕ
digit c = if leb b'0' (code c) && leb (code c) b'9' then some (code c - b'0') else none

abbrev digits_from : ℕ → String → Option ℕ
digits_from n String.[] = some n
digits_from n (String.◌∷◌ c s) = elim (digit c) [
  | none ↦ none
  | some d ↦ digits_from (n * 10 + d) s
]

-- One decimal digit or more.
abbrev decimal : String → Option ℕ
decimal String.[] = none
decimal (String.◌∷◌ c s) = digits_from 0 (String.◌∷◌ c s)

-- The range of 64 bits, outside of which `Atoi` is an error.
abbrev in_range : Option ℕ → Option ℤ
in_range none = none
in_range (some n) = if ltb n (2 ^ 63) then some (pos n) else none

abbrev in_range_neg : Option ℕ → Option ℤ
in_range_neg none = none
in_range_neg (some n) = if leb n (2 ^ 63) then some (sub_ℕ 0 n) else none

unfoldable pub atoi : String → Option ℤ
atoi String.[] = none
atoi (String.◌∷◌ c s) =
    if code c == b'-'
    then in_range_neg (decimal s)
    else if code c == b'+'
    then in_range (decimal s)
    else in_range (decimal (String.◌∷◌ c s))

atoi_reads :
    (atoi "30000" ≡ some (pos 30_000))
    × (atoi "-7" ≡ some (negsuc 6))
    × (atoi "7x" ≡ none)
    × (atoi "9223372036854775808" ≡ none)
unfolding atoi
atoi_reads = (refl, refl, refl, refl)
