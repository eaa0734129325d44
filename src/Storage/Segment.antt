-- ===== src/Storage/Segment.antt =====
-- The names of segment files: `getSegmentPath`, and the scan in `findLatestSegment` of
-- pkg/storage/log.go. `fmt.Sprintf` and `fmt.Sscanf` with "%018d.log" and `filepath.Ext` act on
-- bytes.
pub mod Names
use yuclase.Base.{
  ℕ, zero, suc, ◌+◌, ◌-◌, ◌*◌, ◌/◌, ◌%◌, ◌^◌, Bool, true, false, ◌&&◌, ◌||◌, Option, none, some,
  List, [], ◌∷◌, ◌++◌, ltb, leb, ◌==◌, bytes_eq, if◌then◌else◌,
}
use yuclase.Base.Int64.{ℤ, pos, negsuc, ltb_ℤ}
use yuclase.Base.Bytes.{codes, decimal}
use yuclase.Storage.Disk.{Node, sub_directory, file}

-- The last `w` decimal digits, with leading zeros.
unfoldable pub padded : ℕ → ℕ → List ℕ
padded zero n = []
padded (suc w) n = padded w (n / 10) ++ (48 + n % 10) ∷ []

-- fmt.Sprintf("%018d.log", index)
unfoldable pub segment_name : ℤ → List ℕ
unfolding padded decimal
segment_name (pos n) = (if ltb n (10 ^ 18) then padded 18 n else decimal n) ++ codes ".log"
segment_name (negsuc n) =
    45 ∷ (if ltb (n + 1) (10 ^ 17) then padded 17 (n + 1) else decimal (n + 1)) ++ codes ".log"

-- filepath.Ext(name): what begins at the last dot.
unfoldable pub ext : List ℕ → List ℕ
ext [] = []
ext (c ∷ cs) = elim (ext cs) [ [] ↦ if c == 46 then c ∷ cs else [] | (x ∷ xs) ↦ x ∷ xs ]

abbrev is_digit : ℕ → Bool
is_digit c = leb 48 c && leb c 57

-- The digits that `%d` accepts, at most `w` of them: their value, how many were read, the rest.
unfoldable pub scan_digits : ℕ → ℕ → ℕ → List ℕ → ℕ × ℕ × List ℕ
scan_digits zero acc count bytes = (acc, count, bytes)
scan_digits (suc w) acc count [] = (acc, count, [])
scan_digits (suc w) acc count (c ∷ cs) =
    let more = scan_digits w (acc * 10 + (c - 48)) (count + 1) cs in
    if is_digit c then more else (acc, count, c ∷ cs)

unfoldable pub has_prefix : List ℕ → List ℕ → Bool
has_prefix [] bytes = true
has_prefix (p ∷ ps) [] = false
has_prefix (p ∷ ps) (b ∷ bs) = p == b && has_prefix ps bs

-- After the sign, if there is one: a digit at least, then the literal ".log".
unfoldable pub scan_magnitude : ℕ → List ℕ → Option ℕ
unfolding scan_digits has_prefix
scan_magnitude w bytes =
    let (n, count, rest) = scan_digits w 0 0 bytes in
    if ltb 0 count && has_prefix (codes ".log") rest then some n else none

negated : Option ℕ → Option ℤ
negated (some zero) = some (pos 0)
negated (some (suc n)) = some (negsuc n)
negated none = none

plain : Option ℕ → Option ℤ
plain (some n) = some (pos n)
plain none = none

-- `SkipSpace` before the number.
skip_space : List ℕ → List ℕ
skip_space [] = []
skip_space (c ∷ cs) = let rest = skip_space cs in if c == 32 || c == 9 then rest else c ∷ cs

scan_signed : List ℕ → Option ℤ
unfolding negated plain
scan_signed [] = none
scan_signed (c ∷ cs) =
    if c == 45
    then negated (scan_magnitude 17 cs)
    else if c == 43
    then plain (scan_magnitude 17 cs)
    else plain (scan_magnitude 18 (c ∷ cs))

-- fmt.Sscanf(name, "%018d.log", &index)
unfoldable pub scan_segment_name : List ℕ → Option ℤ
unfolding skip_space scan_signed
scan_segment_name name = scan_signed (skip_space name)

-- if index > maxIndex { maxIndex = index }
abbrev pub raise_to : ℤ → Option ℤ → ℤ
raise_to m none = m
raise_to m (some k) = if ltb_ℤ m k then k else m

unfoldable pub entry_index : List ℕ × Node → Option ℤ
unfolding scan_segment_name ext
entry_index (name, sub_directory) = none
entry_index (name, file i) =
    if bytes_eq (ext name) (codes ".log") then scan_segment_name name else none

-- The loop of `findLatestSegment` over the directory's entries.
unfoldable pub max_index : ℤ → List (List ℕ × Node) → ℤ
unfolding entry_index
max_index m [] = m
max_index m (e ∷ es) = max_index (raise_to m (entry_index e)) es
