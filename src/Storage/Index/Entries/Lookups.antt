-- ===== src/Storage/Index/Entries/Lookups.antt =====
-- `GetClosestPosition` and `GetRange` of pkg/storage/index.go on sorted entries.
use yuclase.Base.{
  ◌≡◌, refl, sym, ap, ◌∙◌, Bool, true, false, ◌&&◌, List, [], ◌∷◌, arith, if◌then◌else◌, Bool-cases,
  inl, inr, some, get_elem?,
}
use yuclase.Base.Int64.{ℤ, ltb_ℤ, leb_ℤ}
use yuclase.Base.Exec.{ok}
use yuclase.Storage.Index.Entries.{
  IndexEntry, Index, get_closest_position, closest_at, both, get_range,
}
use yuclase.Storage.Index.Entries.Sorted.{
  Above, IsSorted, first_where, sort_search_lem, ltb_ℤ-Rises,
}

-- The last entry at or below `o`, or the first entry: `e` is the best so far.
unfoldable pub closest : ℤ → IndexEntry → List IndexEntry → IndexEntry
closest o e [] = e
closest o e (x ∷ xs) = if leb_ℤ x.offset o then closest o x xs else e

closest_lem :
    (o : ℤ) (e : IndexEntry) (es : List IndexEntry)
    → get_elem? (e ∷ es) (first_where (ltb_ℤ o) es) ≡ some (closest o e es)
unfolding closest first_where
closest_lem o e [] = refl
closest_lem o e (x ∷ xs) = elim (Bool-cases (ltb_ℤ o x.offset)) [
  | inl above ↦ let stop : leb_ℤ x.offset o ≡ false = ground arith in rw (above) (rw stop refl)
  | inr below ↦
      let on : leb_ℤ x.offset o ≡ true = ground arith in rw (below) (rw on (closest_lem o x xs))
]

closest-Above :
    (o : ℤ) (e : IndexEntry) (es : List IndexEntry)
    → ltb_ℤ o e.offset ≡ true
    → Above e.offset es
    → closest o e es ≡ e
unfolding closest
closest-Above o e [] p h = refl
closest-Above o e (x ∷ xs) p h =
    let stop : leb_ℤ x.offset o ≡ false = ground (arith, h.0) in rw stop refl

closest_at_lem :
    (o : ℤ) (e : IndexEntry) (es : List IndexEntry)
    → IsSorted (e ∷ es)
    → closest_at (e ∷ es) (first_where (ltb_ℤ o) (e ∷ es)) ≡ both (some (closest o e es))
unfolding closest_at first_where
closest_at_lem o e es h = elim (Bool-cases (ltb_ℤ o e.offset)) [
  | inl above ↦ rw (above) (ap (λ x. both (some x)) (sym (closest-Above o e es above h.0)))
  | inr below ↦ rw (below) (ap both (closest_lem o e es))
]

-- On sorted entries, the first of which is `e`, `GetClosestPosition` returns the last entry whose
-- offset is `o` or less, and `e` where all are above.
pub get_closest_position_lem :
    (o : ℤ) (i : Index) (e : IndexEntry) (es : List IndexEntry)
    → i.entries ≡ e ∷ es
    → IsSorted (e ∷ es)
    → get_closest_position o i ≡ ok ((closest o e es).offset, (closest o e es).position)
unfolding get_closest_position
get_closest_position_lem o i e es q h = rw (q) (
    ap (closest_at (e ∷ es)) (sort_search_lem (ltb_ℤ o) (ltb_ℤ-Rises o) (e ∷ es) h)
    ∙ closest_at_lem o e es h)

-- The entries from `lo` to `hi`, wherever they stand.
abbrev in_range : ℤ → ℤ → IndexEntry → Bool
in_range lo hi e = leb_ℤ lo e.offset && leb_ℤ e.offset hi

unfoldable pub within : ℤ → ℤ → List IndexEntry → List IndexEntry
within lo hi [] = []
within lo hi (e ∷ es) = if in_range lo hi e then e ∷ within lo hi es else within lo hi es

within-Above :
    (lo hi a : ℤ) (es : List IndexEntry) → ltb_ℤ hi a ≡ true → Above a es → within lo hi es ≡ []
unfolding within
within-Above lo hi a [] p h = refl
within-Above lo hi a (x ∷ xs) p h =
    let outside : in_range lo hi x ≡ false = ground (arith, h.0) in
    rw outside (within-Above lo hi a xs p h.1)

-- On sorted entries `GetRange`, which stops at the first offset above the range, returns every
-- entry whose offset is in the range, in order.
pub get_range_lem :
    (lo hi : ℤ) (es : List IndexEntry) → IsSorted es → get_range lo hi es ≡ within lo hi es
unfolding get_range within
get_range_lem lo hi [] h = refl
get_range_lem lo hi (e ∷ es) h = elim (Bool-cases (ltb_ℤ hi e.offset)) [
  | inl above ↦ rw (above) (rw (within-Above lo hi e.offset es above h.0) refl)
  | inr below ↦ rw (below) (rw (get_range_lem lo hi es h.1) refl)
]
