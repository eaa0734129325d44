-- ===== src/Base/Scanner.antt =====
-- `bufio.Scanner` over lines, and the `%d` of `fmt.Sscanf`.
pub mod Lines
use Prim.Native.Nat.{ℕ, ◌+◌}
use mathlib.Core.Option.{Option, none, some}
use mathlib.Core.List.{List, [], ◌∷◌, ◌++◌}
use yuclase.Base.Tests.{ltb, ◌==◌, if◌then◌else◌}
use yuclase.Base.Lists.{length}
use yuclase.Base.Int64.{ℤ}
use yuclase.Base.Exec.{Result, err, unexpected_eof}
use yuclase.Base.Text.{is_digit, trim_left, wide_spaces, parse_uint, positive, negative}

abbrev pub prepend : ℕ → Option (List ℕ × List ℕ) → Option (List ℕ × List ℕ)
prepend c none = none
prepend c (some (line, rest)) = some (c ∷ line, rest)

-- What stands before the first line feed, and what stands behind it.
unfoldable pub cut : List ℕ → Option (List ℕ × List ℕ)
cut [] = none
cut (c ∷ cs) = if c == 10 then some ([], cs) else prepend c (cut cs)

-- One carriage return at the end is no part of a line.
unfoldable pub drop_cr : List ℕ → List ℕ
drop_cr [] = []
drop_cr (c ∷ []) = if c == 13 then [] else c ∷ []
drop_cr (c ∷ d ∷ cs) = c ∷ drop_cr (d ∷ cs)

-- `bufio.MaxScanTokenSize`: a line has fewer bytes before its line feed.
abbrev pub token_limit : ℕ
token_limit = 65536

-- All lines of a connection that ends, behind the bytes `line` of the one that is being read; a line
-- that is too long is the end as well.
unfoldable pub split_lines : List ℕ → List ℕ → List (List ℕ)
unfolding drop_cr
split_lines [] [] = []
split_lines (b ∷ bs) [] = drop_cr (b ∷ bs) ∷ []
split_lines line (c ∷ cs) =
    let next = split_lines [] cs in
    let longer = split_lines (line ++ c ∷ []) cs in
    if c == 10
    then drop_cr line ∷ next
    else if ltb (length line + 1) token_limit
    then longer
    else []

unfoldable pub leading_digits : List ℕ → List ℕ
unfolding is_digit
leading_digits [] = []
leading_digits (c ∷ cs) = if is_digit c then c ∷ leading_digits cs else []

abbrev pub signed : List ℕ → Result ℤ
signed [] = err unexpected_eof
signed (c ∷ cs) =
    if c == 43
    then positive (parse_uint (leading_digits cs))
    else if c == 45
    then negative (parse_uint (leading_digits cs))
    else positive (parse_uint (leading_digits (c ∷ cs)))

-- fmt.Sscanf(s, "%d", &n): white space, a sign, digits; what follows them is left alone.
unfoldable pub scan_int : List ℕ → Result ℤ
unfolding leading_digits
scan_int s = signed (trim_left (length s) wide_spaces s)
