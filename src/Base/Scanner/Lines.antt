-- ===== src/Base/Scanner/Lines.antt =====
-- A line that is written with `\r\n` is the line that the scanner finds.
use Prim.Native.Nat.{ℕ, ◌+◌, ◌^◌, ◌≤◌, ◌<◌}
use mathlib.Core.Path.{◌≡◌, refl, sym, ap, ◌∙◌, subst}
use mathlib.Core.Bool.{false}
use mathlib.Core.Option.{some}
use mathlib.Core.List.{List, [], ◌∷◌, ◌++◌, append-nil, append_assoc}
use native.Mathlib.Omega.{arith}
use yuclase.Base.Tests.{◌==◌, lt→ltb}
use yuclase.Base.Lists.{length, length-append}
use yuclase.Base.Int64.{ℤ, pos, negsuc, IsInt64}
use yuclase.Base.Bytes.{decimal, decimal_ℤ}
use yuclase.Base.Exec.{ok}
use yuclase.Base.Text.{is_digit, wide_spaces, parse_uint, positive, negative, parse_int}
use yuclase.Base.Text.Words.{trim_left-plain, wide_spaces-AreWide}
use yuclase.Base.Text.Numbers.{
  AreDigits, decimal-AreDigits, decimal_first, length-decimal, parse_uint-decimal,
}
use yuclase.Base.Scanner.{
  prepend, cut, drop_cr, split_lines, token_limit, leading_digits, signed, scan_int,
}

-- No line feed.
abbrev pub NoBreak : List ℕ → Type 0
NoBreak [] = Unit {0}
NoBreak (c ∷ cs) = ((c == 10) ≡ false) × NoBreak cs

-- A text that fits one line of the scanner.
abbrev pub IsLine : List ℕ → Type 0
IsLine s = NoBreak s × (length s + 1 < token_limit)

pub append-NoBreak : (s t : List ℕ) → NoBreak s → NoBreak t → NoBreak (s ++ t)
append-NoBreak [] t h g = g
append-NoBreak (c ∷ cs) t h g = (h.0, append-NoBreak cs t h.1 g)

pub cut-line : (s rest : List ℕ) → NoBreak s → cut (s ++ 10 ∷ rest) ≡ some (s, rest)
unfolding cut
cut-line [] rest h = refl
cut-line (c ∷ cs) rest h = rw h.0 (ap (prepend c) (cut-line cs rest h.1))

pub drop_cr-line : (s : List ℕ) → drop_cr (s ++ 13 ∷ []) ≡ s
unfolding drop_cr
drop_cr-line [] = refl
drop_cr-line (c ∷ []) = refl
drop_cr-line (c ∷ d ∷ cs) = ap (λ s. c ∷ s) (drop_cr-line (d ∷ cs))

pub split_lines-line :
    (line s rest : List ℕ)
    → NoBreak s
    → length line + length s < token_limit
    → split_lines line (s ++ 10 ∷ rest) ≡ drop_cr (line ++ s) ∷ split_lines [] rest
unfolding split_lines
split_lines-line [] [] rest h l = refl
split_lines-line (b ∷ bs) [] rest h l =
    ap (λ t. drop_cr t ∷ split_lines [] rest) (sym (append-nil (b ∷ bs)))
split_lines-line [] (c ∷ cs) rest h l = rw h.0 (split_lines-line (c ∷ []) cs rest h.1 (omega arith))
split_lines-line (b ∷ bs) (c ∷ cs) rest h l =
    let small : length (b ∷ bs) + 1 < token_limit = omega arith in
    rw h.0 rw (lt→ltb (length (b ∷ bs) + 1) token_limit small) (
      split_lines-line ((b ∷ bs) ++ c ∷ []) cs rest h.1 (omega (arith, length-append bs (c ∷ [])))
      ∙ ap (λ t. drop_cr t ∷ split_lines [] rest) (append_assoc (b ∷ bs) (c ∷ []) cs))

digits-NoBreak : (s : List ℕ) → AreDigits s → NoBreak s
digits-NoBreak [] h = tt
digits-NoBreak (c ∷ cs) h = (ground (arith, h.0), digits-NoBreak cs h.2)

pub decimal-NoBreak : (n : ℕ) → NoBreak (decimal n)
decimal-NoBreak n = digits-NoBreak (decimal n) (decimal-AreDigits n)

pub decimal_ℤ-NoBreak : (z : ℤ) → NoBreak (decimal_ℤ z)
unfolding decimal_ℤ
decimal_ℤ-NoBreak (pos n) = decimal-NoBreak n
decimal_ℤ-NoBreak (negsuc n) = (refl, decimal-NoBreak (n + 1))

pub length-decimal_ℤ : (z : ℤ) → length (decimal_ℤ z) ≤ 21
unfolding decimal_ℤ
length-decimal_ℤ (pos n) = omega (arith, length-decimal n)
length-decimal_ℤ (negsuc n) = omega (arith, length-decimal (n + 1))

leading_digits-all : (s : List ℕ) → AreDigits s → leading_digits s ≡ s
unfolding leading_digits is_digit
leading_digits-all [] h = refl
leading_digits-all (c ∷ cs) h = ground (arith, leading_digits-all cs h.2)

module _ (c : ℕ) (cs : List ℕ) (h : AreDigits (c ∷ cs)) where
  signed-digits : signed (c ∷ cs) ≡ positive (parse_uint (c ∷ cs))
  signed-digits = let digits = leading_digits-all (c ∷ cs) h in ground (arith, digits)

  parse_int-digits : parse_int (c ∷ cs) ≡ positive (parse_uint (c ∷ cs))
  unfolding parse_int
  parse_int-digits = ground arith

  scan_int-digits : scan_int (c ∷ cs) ≡ positive (parse_uint (c ∷ cs))
  unfolding scan_int
  scan_int-digits =
      ap signed
        (trim_left-plain (length (c ∷ cs)) wide_spaces c cs wide_spaces-AreWide (omega arith))
      ∙ signed-digits

positive_lem : (n : ℕ) → n < 2 ^ 63 → positive (ok n) ≡ ok (pos n)
positive_lem n h = ground arith

negative_lem : (n : ℕ) → n < 2 ^ 63 → negative (ok (n + 1)) ≡ ok (negsuc n)
negative_lem n h = ground arith

module _ (n : ℕ) (h : n < 2 ^ 63) where
  pub scan_int-decimal : scan_int (decimal n) ≡ ok (pos n)
  scan_int-decimal =
      let (c, cs, first) = decimal_first n in
      ap scan_int first
      ∙ scan_int-digits c cs (subst AreDigits first (decimal-AreDigits n))
      ∙ ap (λ s. positive (parse_uint s)) (sym first)
      ∙ ap positive (parse_uint-decimal n (omega arith))
      ∙ positive_lem n h

  parse_int-decimal : parse_int (decimal n) ≡ ok (pos n)
  parse_int-decimal =
      let (c, cs, first) = decimal_first n in
      ap parse_int first
      ∙ parse_int-digits c cs (subst AreDigits first (decimal-AreDigits n))
      ∙ ap (λ s. positive (parse_uint s)) (sym first)
      ∙ ap positive (parse_uint-decimal n (omega arith))
      ∙ positive_lem n h

pub parse_int-decimal_ℤ : (z : ℤ) → IsInt64 z → parse_int (decimal_ℤ z) ≡ ok z
unfolding decimal_ℤ
parse_int-decimal_ℤ (pos n) h = parse_int-decimal n (omega arith)
parse_int-decimal_ℤ (negsuc n) h =
    unfold parse_int in
    (ap negative (parse_uint-decimal (n + 1) (omega arith)) ∙ negative_lem n (omega arith))
