-- ===== src/Storage/Index/Entries.antt =====
-- pkg/storage/index.go: the entries in memory, their insertion and their lookups.
pub mod Search
pub mod Sorted
pub mod Lookups
use yuclase.Base.{
  ℕ, zero, suc, ◌+◌, ◌-◌, ◌/◌, Bool, true, false, not, ◌&&◌, Option, none, some, List, [], ◌∷◌,
  ◌++◌, length, get_elem?, set, take, drop, ltb, if◌then◌else◌, get_last?,
}
use yuclase.Base.Int64.{ℤ, pos, ltb_ℤ, leb_ℤ, eq_ℤ}
use yuclase.Base.Bytes.{codes, decimal_ℤ}
use yuclase.Base.Exec.{Result, ok, err, text, Exec}
use yuclase.Storage.Disk.{On}

pub record IndexEntry : Type 0 where
  pub offset : ℤ
  pub position : ℤ

-- `file_open` says that `file` is not nil; the file is the disk's `index_file`.
pub record Index : Type 0 where
  pub entries : List IndexEntry
  pub file_open : Bool
  pub dirty : Bool

abbrev pub IndexM : Type 0 → Type 0
IndexM A = Exec (On Index) A

abbrev pub set_index : (Index → Index) → IndexM (Unit {0})
set_index f s = (ok tt, record { self = f s.self; disk = s.disk })

-- sort.Search: the loop over the half-open range from `i` to `j`, on fuel.
unfoldable pub search_loop : ℕ → (ℕ → Bool) → ℕ → ℕ → ℕ
search_loop zero f i j = i
search_loop (suc fuel) f i j =
    let h = (i + j) / 2 in
    let left = search_loop fuel f i h in
    let right = search_loop fuel f (h + 1) j in if ltb i j then (if f h then left else right) else i

-- Each round shortens the range, so its length is fuel enough.
unfoldable pub sort_search : ℕ → (ℕ → Bool) → ℕ
unfolding search_loop
sort_search n f = search_loop n f 0 n

-- `i.entries[j]` under a test; out of range the test is not made.
abbrev pub entry_test : (IndexEntry → Bool) → List IndexEntry → ℕ → Bool
entry_test f es j = elim (get_elem? es j) [ none ↦ false | some e ↦ f e ]

-- The position of the first entry whose offset is `offset` or more.
unfoldable pub insert_position : ℤ → List IndexEntry → ℕ
unfolding sort_search
insert_position offset es = sort_search (length es) (entry_test (λ e. leb_ℤ offset e.offset) es)

-- append, copy and store: a new entry at position `p`.
abbrev pub insert_at : List IndexEntry → ℕ → IndexEntry → List IndexEntry
insert_at es p e = take p es ++ e ∷ drop p es

-- insertPos < len(entries) && entries[insertPos].Offset == offset
abbrev pub holds_offset : ℤ → List IndexEntry → ℕ → Bool
holds_offset offset es p = entry_test (λ e. eq_ℤ e.offset offset) es p

unfoldable pub add_to : IndexEntry → List IndexEntry → List IndexEntry
add_to e es =
    let p = insert_position e.offset es in
    if holds_offset e.offset es p then set es p e else insert_at es p e

-- `AddEntry`
unfoldable pub add_entry : ℤ → ℤ → IndexM (Unit {0})
add_entry offset position = set_index λ i. record i {
  entries = add_to (record { offset = offset; position = position }) i.entries;
  dirty = true;
}

-- return entries[pos].Position
position_at : ℤ → List IndexEntry → ℕ → Result ℤ
position_at offset es p = elim (get_elem? es p) [
  | some e ↦
      if eq_ℤ e.offset offset
      then ok e.position
      else err (text (codes "offset " ++ decimal_ℤ offset ++ codes " not found in index"))
  | none ↦ err (text (codes "offset " ++ decimal_ℤ offset ++ codes " not found in index"))
]

-- `GetPosition`
unfoldable pub get_position : ℤ → Index → Result ℤ
unfolding position_at
get_position offset i = position_at offset i.entries (insert_position offset i.entries)

abbrev both : Option IndexEntry → Result (ℤ × ℤ)
both (some e) = ok (e.offset, e.position)
both none = Result.panic

closest_at : List IndexEntry → ℕ → Result (ℤ × ℤ)
closest_at es zero = both (get_elem? es 0)
closest_at es (suc p) = both (get_elem? es p)

-- `GetClosestPosition`
unfoldable pub get_closest_position : ℤ → Index → Result (ℤ × ℤ)
unfolding closest_at
get_closest_position offset i = elim i.entries [
  | [] ↦ err (text (codes "index is empty"))
  | (e ∷ es) ↦
      closest_at (e ∷ es)
        (sort_search (length (e ∷ es)) (entry_test (λ x. ltb_ℤ offset x.offset) (e ∷ es)))
]

-- The loop of `GetRange`, which stops at the first entry above the range.
unfoldable pub get_range : ℤ → ℤ → List IndexEntry → List IndexEntry
get_range lo hi [] = []
get_range lo hi (e ∷ es) =
    let rest = if ltb_ℤ hi e.offset then [] else get_range lo hi es in
    if leb_ℤ lo e.offset && leb_ℤ e.offset hi then e ∷ rest else rest

-- `Size`
unfoldable pub index_size : Index → ℕ
index_size i = length i.entries

-- `GetLastOffset`
unfoldable pub get_last_offset : Index → Result ℤ
get_last_offset i = elim (get_last? i.entries) [
  | some e ↦ ok e.offset
  | none ↦ err (text (codes "index is empty"))
]
