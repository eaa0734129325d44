-- ===== src/Base/Int64.antt =====
-- Go's `int64` (and `int`, which has 64 bits): an integer, with its wrap-around written out. The
-- bit operations act on the two's complement pattern.
use Prim.Native.Nat.{ℕ, suc, ◌+◌, ◌-◌, ◌*◌, ◌/◌, ◌%◌, ◌^◌, ◌≤◌, ◌<◌, bit_or}
use mathlib.Core.Path.{◌≡◌, ap}
use mathlib.Core.Bool.{Bool}
use native.Mathlib.Omega.{arith}
use yuclase.Base.Tests.{ltb, leb, ◌==◌, if◌then◌else◌}
use yuclase.Base.Bits.{bit_or_shifted}

-- `negsuc n` is -(n + 1).
pub data ℤ : Type 0 where
  pos : ℕ → ℤ
  negsuc : ℕ → ℤ

abbrev pub pos_part : ℤ → ℕ
pos_part (pos n) = n
pos_part (negsuc n) = 0

abbrev pub neg_part : ℤ → ℕ
neg_part (pos n) = 0
neg_part (negsuc n) = suc n

abbrev pub sub_ℕ : ℕ → ℕ → ℤ
sub_ℕ a b = if leb b a then pos (a - b) else negsuc (b - a - 1)

abbrev pub ltb_ℤ : ℤ → ℤ → Bool
ltb_ℤ a b = ltb (pos_part a + neg_part b) (pos_part b + neg_part a)

abbrev pub leb_ℤ : ℤ → ℤ → Bool
leb_ℤ a b = leb (pos_part a + neg_part b) (pos_part b + neg_part a)

abbrev pub eq_ℤ : ℤ → ℤ → Bool
eq_ℤ a b = (pos_part a + neg_part b) == (pos_part b + neg_part a)

infix 50 ◌≤ℤ◌ ◌<ℤ◌
abbrev pub ◌≤ℤ◌ : ℤ → ℤ → Type 0
a ≤ℤ b = pos_part a + neg_part b ≤ pos_part b + neg_part a

abbrev pub ◌<ℤ◌ : ℤ → ℤ → Type 0
a <ℤ b = pos_part a + neg_part b < pos_part b + neg_part a

-- The value of a 64-bit pattern, and the pattern of a value.
unfoldable pub signed64 : ℕ → ℤ
signed64 w = if ltb w (2 ^ 63) then pos w else negsuc (2 ^ 64 - w - 1)

unfoldable pub pattern64 : ℤ → ℕ
pattern64 (pos n) = n % 2 ^ 64
pattern64 (negsuc n) = 2 ^ 64 - 1 - n % 2 ^ 64

unfoldable pub wrap64 : ℤ → ℤ
unfolding signed64 pattern64
wrap64 z = signed64 (pattern64 z)

-- `a + b` and `a - b` on int64.
unfoldable pub add64 : ℤ → ℤ → ℤ
unfolding wrap64
add64 a b = wrap64 (sub_ℕ (pos_part a + pos_part b) (neg_part a + neg_part b))

unfoldable pub sub64 : ℤ → ℤ → ℤ
unfolding wrap64
sub64 a b = wrap64 (sub_ℕ (pos_part a + neg_part b) (neg_part a + pos_part b))

-- `a << 32`, `a | b`.
unfoldable pub shl32 : ℤ → ℤ
unfolding signed64 pattern64
shl32 a = signed64 (pattern64 a * 2 ^ 32 % 2 ^ 64)

unfoldable pub or64 : ℤ → ℤ → ℤ
unfolding signed64 pattern64
or64 a b = signed64 (bit_or (pattern64 a) (pattern64 b))

-- `a >> 32`, which rounds down, and `a & 0xFFFFFFFF`.
unfoldable pub shr32 : ℤ → ℤ
shr32 (pos n) = pos (n / 2 ^ 32)
shr32 (negsuc n) = negsuc (n / 2 ^ 32)

unfoldable pub low32 : ℤ → ℕ
unfolding pattern64
low32 a = pattern64 a % 2 ^ 32

pub add64_pos : (a b : ℕ) → a + b < 2 ^ 63 → add64 (pos a) (pos b) ≡ pos (a + b)
unfolding add64
add64_pos a b h = ground arith

pub or64-shl32 :
    (s n : ℕ) → s < 2 ^ 31 → n < 2 ^ 32 → or64 (shl32 (pos s)) (pos n) ≡ pos (s * 2 ^ 32 + n)
unfolding or64 shl32
or64-shl32 s n hs hn = ground (arith, bit_or_shifted 32 s n hn)

pub shr32_pos : (s n : ℕ) → n < 2 ^ 32 → shr32 (pos (s * 2 ^ 32 + n)) ≡ pos s
unfolding shr32
shr32_pos s n h = ap pos (omega arith)

pub low32_pos : (s n : ℕ) → n < 2 ^ 32 → low32 (pos (s * 2 ^ 32 + n)) ≡ n
unfolding low32
low32_pos s n h = omega arith

-- An int64 value.
abbrev pub IsInt64 : ℤ → Type 0
IsInt64 (pos n) = n < 2 ^ 63
IsInt64 (negsuc n) = n < 2 ^ 63

pub pattern64_lt : (t : ℤ) → IsInt64 t → pattern64 t < 2 ^ 64
unfolding pattern64
pattern64_lt (pos n) h = omega arith
pattern64_lt (negsuc n) h = omega arith

pub signed64-pattern64 : (t : ℤ) → IsInt64 t → signed64 (pattern64 t) ≡ t
unfolding pattern64 signed64
signed64-pattern64 (pos n) h = ground arith
signed64-pattern64 (negsuc n) h = ground arith
