-- ===== src/Config/Size.antt =====
-- `parseSize` of internal/config/config.go.
use yuclase.Base.{
  ℕ, ◌-◌, ◌*◌, ◌&&◌, Option, none, some, List, length, take, drop, leb, bytes_eq, if◌then◌else◌,
}
use yuclase.Base.Int64.{ℤ, pos, pos_part, neg_part, sub_ℕ, wrap64, ltb_ℤ}
use yuclase.Base.Bytes.{codes}
use yuclase.Base.Text.{trim_space, to_upper, parse_int}
use yuclase.Base.Exec.{Result, ok, err, text}

-- `strings.HasSuffix` and, where it has it, `strings.TrimSuffix`.
unfoldable pub without_suffix : List ℕ → List ℕ → Option (List ℕ)
without_suffix t s =
    let n = length s - length t in
    if leb (length t) (length s) && bytes_eq (drop n s) t then some (take n s) else none

-- The number and its multiplier.
unfoldable pub split_unit : List ℕ → List ℕ × ℕ
split_unit s = elim (without_suffix (codes "KB") s) [
  | some n ↦ (n, 1024)
  | none ↦ elim (without_suffix (codes "MB") s) [
    | some n ↦ (n, 1024 * 1024)
    | none ↦ elim (without_suffix (codes "GB") s) [
      | some n ↦ (n, 1024 * 1024 * 1024)
      | none ↦ elim (without_suffix (codes "B") s) [ some n ↦ (n, 1) | none ↦ (s, 1) ]
    ]
  ]
]

-- `num * multiplier` on int64, and the test for an overflow.
unfoldable pub scaled : ℕ → Result ℤ → Result ℤ
unfolding wrap64
scaled m (ok z) =
    let result = wrap64 (sub_ℕ (pos_part z * m) (neg_part z * m)) in
    if ltb_ℤ result (pos 0) then err (text (codes "size too large")) else ok result
scaled m (err e) = err e
scaled m Result.panic = Result.panic
scaled m Result.deadlock = Result.deadlock
scaled m Result.stuck = Result.stuck

-- `parseSize`
unfoldable pub parse_size : List ℕ → Result ℤ
unfolding split_unit scaled
parse_size size_str =
    let (num_str, multiplier) = split_unit (to_upper (trim_space size_str)) in
    scaled multiplier (parse_int num_str)
