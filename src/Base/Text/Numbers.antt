-- ===== src/Base/Text/Numbers.antt =====
-- Numbers in decimal: what `fmt.Sprintf("%d")` prints is a line that is read back.
use Prim.Native.Nat.{ℕ, zero, suc, ◌+◌, ◌-◌, ◌*◌, ◌/◌, ◌%◌, ◌^◌, ◌≤◌, ◌<◌}
use mathlib.Core.Path.{◌≡◌, refl, sym, ap, ◌∙◌}
use mathlib.Core.Logic.{inl, inr}
use mathlib.Core.List.{List, [], ◌∷◌, ◌++◌}
use native.Mathlib.Omega.{arith}
use native.Mathlib.Nat.{pow-suc}
use yuclase.Base.Tests.{ltb, ltb→lt, Bool-cases}
use yuclase.Base.Lists.{length, length-append}
use yuclase.Base.Bytes.{decimal, decimal_loop}
use yuclase.Base.Exec.{Result, ok, err, panic, deadlock, stuck}
use yuclase.Base.Text.{is_digit, parse_digits, parse_uint}

abbrev pub AreDigits : List ℕ → Type 0
AreDigits [] = Unit {0}
AreDigits (c ∷ cs) = (48 ≤ c) × (c ≤ 57) × AreDigits cs

append-AreDigits : (xs ys : List ℕ) → AreDigits xs → AreDigits ys → AreDigits (xs ++ ys)
append-AreDigits [] ys h g = g
append-AreDigits (x ∷ xs) ys h g = (h.0, h.1, append-AreDigits xs ys h.2 g)

decimal_loop-AreDigits : (fuel n : ℕ) → AreDigits (decimal_loop fuel n)
unfolding decimal_loop
decimal_loop-AreDigits zero n = omega arith
decimal_loop-AreDigits (suc fuel) n = elim (Bool-cases (ltb n 10)) [
  | inl small ↦ rw small (let h = ltb→lt n 10 small in omega arith)
  | inr big ↦ rw big (
      append-AreDigits (decimal_loop fuel (n / 10)) ((48 + n % 10) ∷ [])
        (decimal_loop-AreDigits fuel (n / 10)) (omega arith))
]

pub decimal-AreDigits : (n : ℕ) → AreDigits (decimal n)
unfolding decimal
decimal-AreDigits n = decimal_loop-AreDigits 19 n

length-decimal_loop : (fuel n : ℕ) → length (decimal_loop fuel n) ≤ suc fuel
unfolding decimal_loop
length-decimal_loop zero n = omega arith
length-decimal_loop (suc fuel) n = elim (Bool-cases (ltb n 10)) [
  | inl small ↦ rw small (omega arith)
  | inr big ↦ rw big (
      omega (
        arith,
        length-append (decimal_loop fuel (n / 10)) ((48 + n % 10) ∷ []),
        length-decimal_loop fuel (n / 10),
      ))
]

pub length-decimal : (n : ℕ) → length (decimal n) ≤ 20
unfolding decimal
length-decimal n = length-decimal_loop 19 n

-- The digits `ys` behind what gave `r`.
abbrev behind : Result ℕ → List ℕ → Result ℕ
behind (ok m) ys = parse_digits m ys
behind (err e) ys = err e
behind panic ys = panic
behind deadlock ys = deadlock
behind stuck ys = stuck

parse_digits-append :
    (n : ℕ) (xs ys : List ℕ) → parse_digits n (xs ++ ys) ≡ behind (parse_digits n xs) ys
unfolding parse_digits
parse_digits-append n [] ys = refl
parse_digits-append n (x ∷ xs) ys = elim (Bool-cases (is_digit x)) [
  | inl digit ↦ rw digit (elim (Bool-cases (ltb (n * 10 + (x - 48)) (2 ^ 64))) [
    | inl small ↦ rw small (parse_digits-append (n * 10 + (x - 48)) xs ys)
    | inr big ↦ rw big refl
  ])
  | inr other ↦ rw other refl
]

parse_digit :
    (n d : ℕ) → d < 10 → n * 10 + d < 2 ^ 64 → parse_digits n ((48 + d) ∷ []) ≡ ok (n * 10 + d)
unfolding parse_digits is_digit
parse_digit n d h g = ground arith

parse_digits-decimal_loop :
    (fuel n : ℕ) → n < 10 ^ suc fuel → n < 2 ^ 64 → parse_digits 0 (decimal_loop fuel n) ≡ ok n
unfolding decimal_loop
parse_digits-decimal_loop zero n h g =
    parse_digit 0 (n % 10) (omega arith) (omega arith) ∙ ap ok (omega arith)
parse_digits-decimal_loop (suc fuel) n h g = elim (Bool-cases (ltb n 10)) [
  | inl small ↦
      rw small (let k = ltb→lt n 10 small in parse_digit 0 n k (omega arith) ∙ ap ok (omega arith))
  | inr big ↦ rw big (
      parse_digits-append 0 (decimal_loop fuel (n / 10)) ((48 + n % 10) ∷ [])
      ∙ ap (λ r. behind r ((48 + n % 10) ∷ []))
          (parse_digits-decimal_loop fuel (n / 10) (omega (arith, pow-suc 10 (suc fuel)))
            (omega arith))
      ∙ parse_digit (n / 10) (n % 10) (omega arith) (omega arith)
      ∙ ap ok (omega arith))
]

-- A number of digits has a first one.
decimal_loop_first : (fuel n : ℕ) → (c : ℕ) × (cs : List ℕ) × (decimal_loop fuel n ≡ c ∷ cs)
unfolding decimal_loop
decimal_loop_first zero n = (48 + n % 10, [], refl)
decimal_loop_first (suc fuel) n = elim (Bool-cases (ltb n 10)) [
  | inl small ↦ (48 + n, [], rw small refl)
  | inr big ↦
      let (c, cs, first) = decimal_loop_first fuel (n / 10) in
      (c, cs ++ (48 + n % 10) ∷ [], rw big (ap (λ s. s ++ (48 + n % 10) ∷ []) first))
]

pub decimal_first : (n : ℕ) → (c : ℕ) × (cs : List ℕ) × (decimal n ≡ c ∷ cs)
unfolding decimal
decimal_first n = decimal_loop_first 19 n

parse_uint-digits :
    (s : List ℕ) (c : ℕ) (cs : List ℕ) → s ≡ c ∷ cs → parse_uint s ≡ parse_digits 0 s
unfolding parse_uint
parse_uint-digits s c cs h = ap parse_uint h ∙ ap (parse_digits 0) (sym h)

pub parse_uint-decimal : (n : ℕ) → n < 2 ^ 64 → parse_uint (decimal n) ≡ ok n
unfolding decimal
parse_uint-decimal n h =
    let (c, cs, first) = decimal_first n in
    parse_uint-digits (decimal n) c cs first ∙ parse_digits-decimal_loop 19 n (omega arith) h
