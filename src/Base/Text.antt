-- ===== src/Base/Text.antt =====
-- `strings.TrimSpace`, `strings.ToUpper`, `strings.ToLower`, `strings.Fields`, `strings.Join` and
-- `strconv.ParseInt`. A letter beyond ASCII stays as it is in `to_upper` and `to_lower`.
pub mod Words
pub mod Numbers
use Prim.Native.Nat.{ℕ, zero, suc, ◌+◌, ◌-◌, ◌*◌, ◌^◌}
use mathlib.Core.Bool.{Bool, ◌&&◌, ◌||◌}
use mathlib.Core.List.{List, [], ◌∷◌, ◌++◌, map, reverse}
use yuclase.Base.Tests.{ltb, leb, ◌==◌, bytes_eq, if◌then◌else◌}
use yuclase.Base.Lists.{length, take, drop}
use yuclase.Base.Int64.{ℤ, pos, sub_ℕ}
use yuclase.Base.Bytes.{codes}
use yuclase.Base.Exec.{Result, ok, err, text, Error}

-- The characters of more than one byte that are white space, in UTF-8.
abbrev pub wide_spaces : List (List ℕ)
wide_spaces =
    (194 ∷ 133 ∷ [])
    ∷ (194 ∷ 160 ∷ [])
    ∷ (225 ∷ 154 ∷ 128 ∷ [])
    ∷ (226 ∷ 128 ∷ 168 ∷ [])
    ∷ (226 ∷ 128 ∷ 169 ∷ [])
    ∷ (226 ∷ 128 ∷ 175 ∷ [])
    ∷ (226 ∷ 129 ∷ 159 ∷ [])
    ∷ (227 ∷ 128 ∷ 128 ∷ [])
    ∷ (226 ∷ 128 ∷ 128 ∷ [])
    ∷ (226 ∷ 128 ∷ 129 ∷ [])
    ∷ (226 ∷ 128 ∷ 130 ∷ [])
    ∷ (226 ∷ 128 ∷ 131 ∷ [])
    ∷ (226 ∷ 128 ∷ 132 ∷ [])
    ∷ (226 ∷ 128 ∷ 133 ∷ [])
    ∷ (226 ∷ 128 ∷ 134 ∷ [])
    ∷ (226 ∷ 128 ∷ 135 ∷ [])
    ∷ (226 ∷ 128 ∷ 136 ∷ [])
    ∷ (226 ∷ 128 ∷ 137 ∷ [])
    ∷ (226 ∷ 128 ∷ 138 ∷ [])
    ∷ []

unfoldable pub is_space : ℕ → Bool
is_space c = (c == 32) || (leb 9 c && leb c 13)

abbrev pub starts_with : List ℕ → List ℕ → Bool
starts_with p s = bytes_eq (take (length p) s) p

-- `s` without one of the sequences `ps` at its front.
unfoldable pub drop_prefix : List (List ℕ) → List ℕ → List ℕ
drop_prefix [] s = s
drop_prefix (p ∷ ps) s =
    let rest = drop_prefix ps s in if starts_with p s then drop (length p) s else rest

unfoldable pub drop_space : List (List ℕ) → List ℕ → List ℕ
unfolding is_space drop_prefix
drop_space wide [] = []
drop_space wide (c ∷ cs) = if is_space c then cs else drop_prefix wide (c ∷ cs)

-- White space at the front; each round drops a byte, so the length is fuel enough.
unfoldable pub trim_left : ℕ → List (List ℕ) → List ℕ → List ℕ
unfolding drop_space
trim_left zero wide s = s
trim_left (suc fuel) wide s = trim_left fuel wide (drop_space wide s)

-- `strings.TrimSpace`
unfoldable pub trim_space : List ℕ → List ℕ
unfolding trim_left
trim_space s =
    let t = trim_left (length s) wide_spaces s in
    reverse (trim_left (length t) (map reverse wide_spaces) (reverse t))

-- `strings.ToUpper`
unfoldable pub upper : ℕ → ℕ
upper c = if leb 97 c && leb c 122 then c - 32 else c

unfoldable pub to_upper : List ℕ → List ℕ
unfolding upper
to_upper [] = []
to_upper (c ∷ cs) = upper c ∷ to_upper cs

-- `strings.ToLower`
unfoldable pub lower : ℕ → ℕ
lower c = if leb 65 c && leb c 90 then c + 32 else c

unfoldable pub to_lower : List ℕ → List ℕ
unfolding lower
to_lower [] = []
to_lower (c ∷ cs) = lower c ∷ to_lower cs

abbrev pub syntax_error : Error
syntax_error = text (codes "invalid syntax")

abbrev pub range_error : Error
range_error = text (codes "value out of range")

unfoldable pub is_digit : ℕ → Bool
is_digit c = leb 48 c && leb c 57

-- `strconv.ParseUint(s, 10, 64)` behind the digits that give `n`.
unfoldable pub parse_digits : ℕ → List ℕ → Result ℕ
unfolding is_digit
parse_digits n [] = ok n
parse_digits n (c ∷ cs) =
    let m = n * 10 + (c - 48) in
    let rest = parse_digits m cs in
    if is_digit c then (if ltb m (2 ^ 64) then rest else err range_error) else err syntax_error

unfoldable pub parse_uint : List ℕ → Result ℕ
unfolding parse_digits
parse_uint [] = err syntax_error
parse_uint (c ∷ cs) = parse_digits 0 (c ∷ cs)

-- The magnitude under its sign, in the range of an int64.
abbrev pub positive : Result ℕ → Result ℤ
positive (ok n) = if ltb n (2 ^ 63) then ok (pos n) else err range_error
positive (err e) = err e
positive Result.panic = Result.panic
positive Result.deadlock = Result.deadlock
positive Result.stuck = Result.stuck

abbrev pub negative : Result ℕ → Result ℤ
negative (ok n) = if leb n (2 ^ 63) then ok (sub_ℕ 0 n) else err range_error
negative (err e) = err e
negative Result.panic = Result.panic
negative Result.deadlock = Result.deadlock
negative Result.stuck = Result.stuck

-- `strconv.ParseInt(s, 10, 64)`, and `strconv.Atoi`.
unfoldable pub parse_int : List ℕ → Result ℤ
unfolding parse_uint
parse_int [] = err syntax_error
parse_int (c ∷ cs) =
    if c == 43
    then positive (parse_uint cs)
    else if c == 45
    then negative (parse_uint cs)
    else positive (parse_uint (c ∷ cs))

-- A word that is not empty, and the words behind it.
abbrev pub flush : List ℕ → List (List ℕ) → List (List ℕ)
flush [] ws = ws
flush (c ∷ cs) ws = (c ∷ cs) ∷ ws

-- `strings.Fields`: `word` has been read; each round takes a byte, so the length is fuel enough.
unfoldable pub fields_loop : ℕ → List ℕ → List ℕ → List (List ℕ)
fields_loop zero word s = flush word []
fields_loop (suc fuel) word [] = flush word []
fields_loop (suc fuel) word (c ∷ cs) =
    let rest = drop_space wide_spaces (c ∷ cs) in
    let next = fields_loop fuel [] rest in
    let longer = fields_loop fuel (word ++ c ∷ []) cs in
    if ltb (length rest) (length (c ∷ cs)) then flush word next else longer

unfoldable pub fields : List ℕ → List (List ℕ)
unfolding fields_loop
fields s = fields_loop (length s) [] s

-- strings.Join(words, " ")
unfoldable pub join : List (List ℕ) → List ℕ
join [] = []
join (w ∷ []) = w
join (w ∷ v ∷ ws) = w ++ 32 ∷ join (v ∷ ws)
