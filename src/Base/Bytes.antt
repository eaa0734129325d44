-- ===== src/Base/Bytes.antt =====
-- `binary.BigEndian`, `fmt.Sprintf("%d")` and string literals, over lists of bytes.
use Prim.Native.Nat.{ℕ, zero, suc, ◌+◌, ◌*◌, ◌/◌, ◌%◌, ◌^◌, ◌<◌}
use Prim.Native.Char.{code}
use Prim.Native.String.{String}
use mathlib.Core.Path.{◌≡◌, refl, ap}
use mathlib.Core.List.{List, [], ◌∷◌, ◌++◌}
use native.Mathlib.Omega.{arith}
use yuclase.Base.Tests.{ltb, if◌then◌else◌}
use yuclase.Base.Lists.{length}
use yuclase.Base.Int64.{ℤ, pos, negsuc}

abbrev pub codes : String → List ℕ
codes String.[] = []
codes (String.◌∷◌ c s) = code c ∷ codes s

-- `PutUint32` is `put_uint 4`, `PutUint64` is `put_uint 8`; `read_uint` reads either back.
unfoldable pub put_uint : ℕ → ℕ → List ℕ
put_uint zero v = []
put_uint (suc w) v = (v / 256 ^ w % 256) ∷ put_uint w v

unfoldable pub read_uint : ℕ → List ℕ → ℕ
read_uint acc [] = acc
read_uint acc (b ∷ bs) = read_uint (acc * 256 + b) bs

pub length-put_uint : (w v : ℕ) → length (put_uint w v) ≡ w
unfolding put_uint
length-put_uint zero v = refl
length-put_uint (suc w) v = ap suc (length-put_uint w v)

pub read_uint-put_uint_32 : (v : ℕ) → v < 2 ^ 32 → read_uint 0 (put_uint 4 v) ≡ v
unfolding read_uint put_uint
read_uint-put_uint_32 v h = omega arith

pub read_uint-put_uint_64 : (v : ℕ) → v < 2 ^ 64 → read_uint 0 (put_uint 8 v) ≡ v
unfolding read_uint put_uint
read_uint-put_uint_64 v h = omega arith

-- The decimal digits of a number below 10 ^ (fuel + 1), without leading zeros.
unfoldable pub decimal_loop : ℕ → ℕ → List ℕ
decimal_loop zero n = (48 + n % 10) ∷ []
decimal_loop (suc fuel) n =
    let rest = decimal_loop fuel (n / 10) in
    if ltb n 10 then (48 + n) ∷ [] else rest ++ (48 + n % 10) ∷ []

-- Twenty digits are enough for every 64-bit number.
unfoldable pub decimal : ℕ → List ℕ
unfolding decimal_loop
decimal n = decimal_loop 19 n

unfoldable pub decimal_ℤ : ℤ → List ℕ
unfolding decimal
decimal_ℤ (pos n) = decimal n
decimal_ℤ (negsuc n) = 45 ∷ decimal (n + 1)
