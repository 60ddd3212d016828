-- ===== src/Base/Int.antt =====
-- Go's signed integers: `int` is an integer that a conversion wraps to its width.
use multi_tenant_messaging.Base.{
  ℕ, suc, ◌+◌, ◌-◌, ◌*◌, ◌%◌, ◌^◌, ◌≤◌, ◌<◌, ◌≡◌, refl, Bool, true, false, arith, ltb, leb,
  if◌then◌else◌,
}

-- `negsuc n` is -(n + 1).
pub data ℤ : Type 0 where
  pos : ℕ → ℤ
  negsuc : ℕ → ℤ

abbrev pub pos_part : ℤ → ℕ
pos_part (pos n) = n
pos_part (negsuc n) = 0

abbrev pub neg_part : ℤ → ℕ
neg_part (pos n) = 0
neg_part (negsuc n) = suc n

abbrev pub sub_ℕ : ℕ → ℕ → ℤ
sub_ℕ a b = if leb b a then pos (a - b) else negsuc (b - a - 1)

infixl 65 ◌+ℤ◌ ◌-ℤ◌
infix 50 ◌≤ℤ◌
abbrev pub ◌+ℤ◌ : ℤ → ℤ → ℤ
a +ℤ b = sub_ℕ (pos_part a + pos_part b) (neg_part a + neg_part b)

abbrev pub ◌-ℤ◌ : ℤ → ℤ → ℤ
a -ℤ b = sub_ℕ (pos_part a + neg_part b) (neg_part a + pos_part b)

abbrev pub scale_ℤ : ℕ → ℤ → ℤ
scale_ℤ k a = sub_ℕ (k * pos_part a) (k * neg_part a)

abbrev pub ◌≤ℤ◌ : ℤ → ℤ → Type 0
a ≤ℤ b = pos_part a + neg_part b ≤ pos_part b + neg_part a

abbrev pub leb_ℤ : ℤ → ℤ → Bool
leb_ℤ a b = leb (pos_part a + neg_part b) (pos_part b + neg_part a)

abbrev pub ltb_ℤ : ℤ → ℤ → Bool
ltb_ℤ a b = ltb (pos_part a + neg_part b) (pos_part b + neg_part a)

abbrev pub is_negative : ℤ → Bool
is_negative (pos n) = false
is_negative (negsuc n) = true

-- The two's complement bit pattern of an integer at width `w`, and the integer it stands for.
abbrev pub pattern_of : ℕ → ℤ → ℕ
pattern_of m (pos n) = n % m
pattern_of m (negsuc n) = m - 1 - n % m

abbrev pub signed : ℕ → ℕ → ℤ
signed half p = if ltb p half then pos p else negsuc (half + half - 1 - p)

-- The conversion `int32(z)`.
pub int32 : ℤ → ℤ
int32 z = signed (2 ^ 31) (pattern_of (2 ^ 32) z)

-- 64-bit arithmetic: the result of `+`, `-` or `*` on `int` and `time.Duration`.
unfoldable pub int64 : ℤ → ℤ
int64 z = signed (2 ^ 63) (pattern_of (2 ^ 64) z)

pub int32_fits : (n : ℕ) → n < 2 ^ 31 → int32 (pos n) ≡ pos n
unfolding int32
int32_fits n h = ground arith

pub int64_fits : (n : ℕ) → n < 2 ^ 63 → int64 (pos n) ≡ pos n
unfolding int64
int64_fits n h = ground arith

pub int64_fits_neg : (n : ℕ) → n < 2 ^ 63 → int64 (negsuc n) ≡ negsuc n
unfolding int64
int64_fits_neg n h = ground arith

int32_wraps : int32 (pos (2 ^ 31)) ≡ negsuc (2 ^ 31 - 1)
unfolding int32
int32_wraps = refl
