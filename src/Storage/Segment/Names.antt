-- ===== src/Storage/Segment/Names.antt =====
-- Segment names read back as the index that they were printed from.
use yuclase.Base.{
  ℕ, zero, suc, ◌+◌, ◌*◌, ◌/◌, ◌%◌, ◌^◌, ◌<◌, ◌≡◌, refl, sym, ap, ◌∙◌, some, List, [], ◌∷◌, ◌++◌,
  arith, append_assoc, lt→ltb,
}
use yuclase.Base.Int64.{pos}
use yuclase.Base.Bytes.{codes}
use native.Mathlib.Nat.{pow-suc, zero-add}
use mathlib.Core.Path.{ap₂}
use yuclase.Storage.Segment.{
  segment_name, scan_segment_name, padded, scan_digits, scan_magnitude, plain, has_prefix,
}

-- A digit is taken, with the value that it adds.
scan_digit :
    (w acc count d : ℕ) (rest : List ℕ)
    → d < 10
    → scan_digits (suc w) acc count ((48 + d) ∷ rest)
      ≡ scan_digits w (acc * 10 + d) (count + 1) rest
unfolding scan_digits
scan_digit w acc count d rest h = ground arith

-- Scanning takes the `w` digits of a number below 10 ^ w, and then has room for `room` more.
scan_digits-padded :
    (w room n acc count : ℕ) (rest : List ℕ)
    → n < 10 ^ w
    → scan_digits (w + room) acc count (padded w n ++ rest)
      ≡ scan_digits room (acc * 10 ^ w + n) (count + w) rest
unfolding padded
scan_digits-padded zero room n acc count rest h =
    rw (zero-add room) (ap₂ (λ a c. scan_digits room a c rest) (omega arith) (omega arith))
scan_digits-padded (suc w) room n acc count rest h =
    let d : ℕ = n % 10 in
    let before : n / 10 < 10 ^ w = omega (arith, pow-suc 10 w) in
    let value : (acc * 10 ^ w + n / 10) * 10 + d ≡ acc * 10 ^ suc w + n =
      omega (arith, ap (λ (t : ℕ). acc * t) (pow-suc 10 w)) in
    ap (scan_digits (suc w + room) acc count)
      (append_assoc (padded w (n / 10)) ((48 + d) ∷ []) rest)
    ∙ ap (λ t. scan_digits t acc count (padded w (n / 10) ++ (48 + d) ∷ rest)) (omega arith)
    ∙ scan_digits-padded w (suc room) (n / 10) acc count ((48 + d) ∷ rest) before
    ∙ scan_digit room (acc * 10 ^ w + n / 10) (count + w) d rest (omega arith)
    ∙ ap₂ (λ a c. scan_digits room a c rest) value (omega arith)

-- A padded number begins with a digit.
padded_head : (w n : ℕ) → (d : ℕ) × (ds : List ℕ) × (d < 10) × (padded (suc w) n ≡ (48 + d) ∷ ds)
unfolding padded
padded_head zero n = (n % 10, [], omega arith, refl)
padded_head (suc w) n =
    let (d, ds, small, e) = padded_head w (n / 10) in
    (d, ds ++ (48 + n % 10) ∷ [], small, ap (λ t. t ++ (48 + n % 10) ∷ []) e)

scan_magnitude-padded :
    (n : ℕ) → n < 10 ^ 18 → scan_magnitude 18 (padded 18 n ++ codes ".log") ≡ some n
unfolding scan_magnitude
scan_magnitude-padded n h =
    rw (scan_digits-padded 18 0 n 0 0 (codes ".log") h)
      (unfold scan_digits has_prefix in ap some (zero-add n))

scan_digits_first :
    (d : ℕ) (ds : List ℕ)
    → d < 10
    → scan_segment_name ((48 + d) ∷ ds) ≡ plain (scan_magnitude 18 ((48 + d) ∷ ds))
unfolding scan_segment_name
scan_digits_first d ds h = ground arith

-- `findLatestSegment` reads from the name of a segment the index that `getSegmentPath` printed.
pub scan_segment_name-segment_name :
    (n : ℕ) → n < 10 ^ 18 → scan_segment_name (segment_name (pos n)) ≡ some (pos n)
unfolding segment_name plain
scan_segment_name-segment_name n h =
    let (d, ds, small, e) = padded_head 17 n in
    rw (lt→ltb n (10 ^ 18) h) (
      ap (λ t. scan_segment_name (t ++ codes ".log")) e
      ∙ scan_digits_first d (ds ++ codes ".log") small
      ∙ ap (λ t. plain (scan_magnitude 18 (t ++ codes ".log"))) (sym e)
      ∙ ap plain (scan_magnitude-padded n h))
