-- ===== src/Storage/Index/Entries/Sorted.antt =====
-- The entries of an index stay sorted, and binary search on them is a search from the front.
use yuclase.Base.{
  ℕ, zero, suc, ◌<◌, ◌≡◌, refl, sym, ap, ◌∙◌, Bool, true, false, List, [], ◌∷◌, ◌++◌, length, arith,
  if◌then◌else◌, Bool-cases, inl, inr, Option, some, none, set,
}
use mathlib.Core.Path.{subst}
use yuclase.Base.Int64.{ℤ, ◌<ℤ◌, ◌≤ℤ◌, ltb_ℤ, leb_ℤ, eq_ℤ}
use yuclase.Storage.Index.Entries.{
  IndexEntry, sort_search, entry_test, insert_position, Index, add_to, add_entry, insert_at,
  holds_offset, position_at, get_position,
}
use yuclase.Base.Bytes.{codes, decimal_ℤ}
use yuclase.Base.Exec.{Result, ok, err, text}
use yuclase.Storage.Disk.{On}
use yuclase.Storage.Index.Entries.Search.{IsMonotone, IsFirst, sort_search-IsFirst}

-- Every entry has an offset above `o`.
abbrev pub Above : ℤ → List IndexEntry → Type 0
Above o [] = Unit
Above o (e ∷ es) = (o <ℤ e.offset) × Above o es

-- The offsets rise.
abbrev pub IsSorted : List IndexEntry → Type 0
IsSorted [] = Unit
IsSorted (e ∷ es) = Above e.offset es × IsSorted es

-- The place of the first entry whose offset passes the test, or the length.
unfoldable pub first_where : (ℤ → Bool) → List IndexEntry → ℕ
first_where t [] = 0
first_where t (e ∷ es) = if t e.offset then 0 else suc (first_where t es)

abbrev on_offset : (ℤ → Bool) → List IndexEntry → ℕ → Bool
on_offset t = entry_test (λ e. t e.offset)

IsFirst-unique :
    (t : ℤ → Bool) (es : List IndexEntry) (r : ℕ)
    → IsFirst (on_offset t es) (length es) r
    → r ≡ first_where t es
unfolding first_where
IsFirst-unique t [] r h = omega arith
IsFirst-unique t (e ∷ es) zero h = ground (arith, h.2)
IsFirst-unique t (e ∷ es) (suc r) h = ground (
  arith,
  h.1 0,
  IsFirst-unique t es r (omega arith, λ i p. h.1 (suc i) (omega arith), λ p. h.2 (omega arith)),
)

-- The test stays true upwards.
abbrev Rises : (ℤ → Bool) → Type 0
Rises t = (a b : ℤ) → a <ℤ b → t a ≡ true → t b ≡ true

module _ (t : ℤ → Bool) (up : Rises t) where
  Above-passes :
      (o : ℤ) (es : List IndexEntry) (j : ℕ)
      → Above o es
      → t o ≡ true
      → j < length es
      → on_offset t es j ≡ true
  Above-passes o [] j h p q = absurd (omega arith)
  Above-passes o (e ∷ es) zero h p q = up o e.offset h.0 p
  Above-passes o (e ∷ es) (suc j) h p q = Above-passes o es j h.1 p (omega arith)

  IsSorted-IsMonotone :
      (es : List IndexEntry) → IsSorted es → IsMonotone (on_offset t es) (length es)
  IsSorted-IsMonotone [] h i j p q e = absurd (omega arith)
  IsSorted-IsMonotone (e ∷ es) h zero zero p q x = x
  IsSorted-IsMonotone (e ∷ es) h zero (suc j) p q x = Above-passes e.offset es j h.0 x (omega arith)
  IsSorted-IsMonotone (e ∷ es) h (suc i) zero p q x = absurd (omega arith)
  IsSorted-IsMonotone (e ∷ es) h (suc i) (suc j) p q x =
      IsSorted-IsMonotone es h.1 i j (omega arith) (omega arith) x

  -- On sorted entries `sort.Search` finds the first entry that passes.
  pub sort_search_lem :
      (es : List IndexEntry)
      → IsSorted es
      → sort_search (length es) (on_offset t es) ≡ first_where t es
  sort_search_lem es h =
      IsFirst-unique t es _
        (sort_search-IsFirst (on_offset t es) (length es) (IsSorted-IsMonotone es h))

leb_ℤ-Rises : (o : ℤ) → Rises (leb_ℤ o)
leb_ℤ-Rises o a b h p = ground arith

pub ltb_ℤ-Rises : (o : ℤ) → Rises (ltb_ℤ o)
ltb_ℤ-Rises o a b h p = ground arith

pub insert_position_lem :
    (o : ℤ) (es : List IndexEntry) → IsSorted es → insert_position o es ≡ first_where (leb_ℤ o) es
unfolding insert_position
insert_position_lem o es h = sort_search_lem (leb_ℤ o) (leb_ℤ-Rises o) es h

-- `AddEntry` read from the front.
unfoldable pub put : IndexEntry → List IndexEntry → List IndexEntry
put e [] = e ∷ []
put e (x ∷ xs) =
    if leb_ℤ e.offset x.offset
    then (if eq_ℤ x.offset e.offset then e ∷ xs else e ∷ x ∷ xs)
    else x ∷ put e xs

abbrev add_at : IndexEntry → List IndexEntry → ℕ → List IndexEntry
add_at e es p = if holds_offset e.offset es p then set es p e else insert_at es p e

add_at-suc :
    (e x : IndexEntry) (xs : List IndexEntry) (p : ℕ)
    → add_at e (x ∷ xs) (suc p) ≡ x ∷ add_at e xs p
add_at-suc e x xs p = elim (Bool-cases (holds_offset e.offset xs p)) [
  | inl old ↦ rw old
  | inr new ↦ rw new
]

add_at_lem :
    (e : IndexEntry) (es : List IndexEntry)
    → add_at e es (first_where (leb_ℤ e.offset) es) ≡ put e es
unfolding first_where put
add_at_lem e [] = refl
add_at_lem e (x ∷ xs) = elim (Bool-cases (leb_ℤ e.offset x.offset)) [
  | inl here ↦ rw here
  | inr later ↦
      rw later (add_at-suc e x xs (first_where (leb_ℤ e.offset) xs) ∙ ap (◌∷◌ x) (add_at_lem e xs))
]

-- On sorted entries `AddEntry` puts the entry in its place, over one with the same offset.
pub add_to_lem : (e : IndexEntry) (es : List IndexEntry) → IsSorted es → add_to e es ≡ put e es
unfolding add_to
add_to_lem e es h = rw (insert_position_lem e.offset es h) (add_at_lem e es)

put-Above :
    (o : ℤ) (e : IndexEntry) (es : List IndexEntry)
    → o <ℤ e.offset
    → Above o es
    → Above o (put e es)
unfolding put
put-Above o e [] p h = (p, tt)
put-Above o e (x ∷ xs) p h = ground (arith, put-Above o e xs p h.1)

Above-le : (a b : ℤ) (es : List IndexEntry) → a ≤ℤ b → Above b es → Above a es
Above-le a b [] p h = tt
Above-le a b (x ∷ xs) p h = (omega arith, Above-le a b xs p h.1)

put-IsSorted : (e : IndexEntry) (es : List IndexEntry) → IsSorted es → IsSorted (put e es)
unfolding put
put-IsSorted e [] h = (tt, tt)
put-IsSorted e (x ∷ xs) h = elim (Bool-cases (leb_ℤ e.offset x.offset)) [
  | inl here ↦ elim (Bool-cases (eq_ℤ x.offset e.offset)) [
    | inl old ↦ rw (here, old) (Above-le e.offset x.offset xs (ground arith) h.0, h.1)
    | inr new ↦ rw (here, new) ((ground arith, Above-le e.offset x.offset xs (ground arith) h.0), h)
  ]
  | inr later ↦ rw later (put-Above x.offset e xs (ground arith) h.0, put-IsSorted e xs h.1)
]

-- `AddEntry` keeps the entries sorted by offset, with no offset twice.
pub add_to-IsSorted : (e : IndexEntry) (es : List IndexEntry) → IsSorted es → IsSorted (add_to e es)
add_to-IsSorted e es h = subst IsSorted (sym (add_to_lem e es h)) (put-IsSorted e es h)

-- The position that the entries give an offset: a search from the front.
unfoldable pub position_of : ℤ → List IndexEntry → Option ℤ
position_of o [] = none
position_of o (x ∷ xs) = if eq_ℤ x.offset o then some x.position else position_of o xs

abbrev pub found : ℤ → Option ℤ → Result ℤ
found o (some p) = ok p
found o none = err (text (codes "offset " ++ decimal_ℤ o ++ codes " not found in index"))

position_of-Above : (o : ℤ) (es : List IndexEntry) → Above o es → position_of o es ≡ none
unfolding position_of
position_of-Above o [] h = refl
position_of-Above o (x ∷ xs) h = ground (arith, position_of-Above o xs h.1)

not_equal : (a b : ℤ) → leb_ℤ a b ≡ false → eq_ℤ b a ≡ false
not_equal a b h = ground arith

position_at_first :
    (o : ℤ) (es : List IndexEntry)
    → IsSorted es
    → position_at o es (first_where (leb_ℤ o) es) ≡ found o (position_of o es)
unfolding position_of first_where position_at
position_at_first o [] h = refl
position_at_first o (x ∷ xs) h = elim (Bool-cases (leb_ℤ o x.offset)) [
  | inl here ↦ elim (Bool-cases (eq_ℤ x.offset o)) [
    | inl old ↦ rw (here, old)
    | inr new ↦ rw (here, new, position_of-Above o xs (Above-le o x.offset xs (ground arith) h.0))
  ]
  | inr later ↦ rw (later, not_equal o x.offset later) (position_at_first o xs h.1)
]

-- On sorted entries `GetPosition` is the search from the front.
pub get_position_lem :
    (o : ℤ) (i : Index) → IsSorted i.entries → get_position o i ≡ found o (position_of o i.entries)
unfolding get_position
get_position_lem o i h =
    ap (position_at o i.entries) (insert_position_lem o i.entries h)
    ∙ position_at_first o i.entries h

position_of-put :
    (o : ℤ) (e : IndexEntry) (es : List IndexEntry)
    → IsSorted es
    → position_of o (put e es) ≡ (if eq_ℤ e.offset o then some e.position else position_of o es)
unfolding position_of put
position_of-put o e [] h = refl
position_of-put o e (x ∷ xs) h = ground (arith, position_of-put o e xs h.1)

found-if :
    (o p : ℤ) (q : Option ℤ) (b : Bool)
    → found o (if b then some p else q) ≡ (if b then ok p else found o q)
found-if o p q true = refl
found-if o p q false = refl

-- After `AddEntry` of an offset on sorted entries, `GetPosition` returns the new position for that
-- offset, and for any other offset what it returned before.
pub get_position-add_entry :
    (o offset position : ℤ) (s : On Index)
    → IsSorted s.self.entries
    → get_position o (add_entry offset position s).1.self
      ≡ (if eq_ℤ offset o then ok position else get_position o s.self)
unfolding add_entry
get_position-add_entry o offset position s h =
    let e : IndexEntry = record { offset = offset; position = position } in
    let es = s.self.entries in
    get_position_lem o (add_entry offset position s).1.self (add_to-IsSorted e es h)
    ∙ ap (λ t. found o (position_of o t)) (add_to_lem e es h)
    ∙ ap (found o) (position_of-put o e es h)
    ∙ found-if o position (position_of o es) (eq_ℤ offset o)
    ∙ ap (λ t. if eq_ℤ offset o then ok position else t) (sym (get_position_lem o s.self h))
