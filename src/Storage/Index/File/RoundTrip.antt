-- ===== src/Storage/Index/File/RoundTrip.antt =====
-- The index file of pkg/storage/index.go: what `persist` writes, `load` reads.
use yuclase.Base.{
  ℕ, zero, suc, ◌+◌, ◌*◌, ◌/◌, ◌≡◌, refl, sym, ap, ◌∙◌, Bool, true, false, some, List, [], ◌∷◌,
  ◌++◌, length, length-append, take, drop, drop-append, take-append, arith, append-nil,
  append_assoc, Bool-cases, inl, inr,
}
use mathlib.Core.Path.{subst, ap₂}
use yuclase.Base.Int64.{ℤ, IsInt64, pattern64, signed64, pattern64_lt, signed64-pattern64}
use yuclase.Base.Bytes.{put_uint, read_uint, length-put_uint, read_uint-put_uint_64}
use yuclase.Base.Exec.{
  Syscall, open_call, stat_call, write_call, truncate_call, seek_call, sync_call, read_call, Result,
  ok,
}
use yuclase.Storage.Disk.{Disk, On}
use yuclase.Storage.Index.Entries.{IndexEntry, Index}
use yuclase.Storage.Index.File.{
  entry_bytes, read_entry, read_entries, load, persist, write_entries, reopen, read_some, read_all,
  index_entry_size,
}

-- The fields are int64 values.
abbrev pub AreEntries : List IndexEntry → Type 0
AreEntries [] = Unit
AreEntries (e ∷ es) = IsInt64 e.offset × IsInt64 e.position × AreEntries es

-- The bytes of the entries.
unfoldable pub all_bytes : List IndexEntry → List ℕ
all_bytes [] = []
all_bytes (e ∷ es) = entry_bytes e ++ all_bytes es

length-entry_bytes : (e : IndexEntry) → length (entry_bytes e) ≡ 16
unfolding entry_bytes
length-entry_bytes e =
    length-append (put_uint 8 (pattern64 e.offset)) (put_uint 8 (pattern64 e.position))
    ∙ ap₂ (λ m n. m + n) (length-put_uint 8 (pattern64 e.offset))
        (length-put_uint 8 (pattern64 e.position))

length-all_bytes : (es : List IndexEntry) → length (all_bytes es) ≡ 16 * length es
unfolding all_bytes
length-all_bytes [] = refl
length-all_bytes (e ∷ es) =
    omega (
      arith,
      length-append (entry_bytes e) (all_bytes es),
      length-entry_bytes e,
      length-all_bytes es,
    )

field : (z : ℤ) → IsInt64 z → signed64 (read_uint 0 (put_uint 8 (pattern64 z))) ≡ z
field z h =
    ap signed64 (read_uint-put_uint_64 (pattern64 z) (pattern64_lt z h)) ∙ signed64-pattern64 z h

abbrev entry : ℤ → ℤ → IndexEntry
entry o p = record { offset = o; position = p }

read_entry-entry_bytes :
    (e : IndexEntry) → IsInt64 e.offset → IsInt64 e.position → read_entry (entry_bytes e) ≡ e
unfolding read_entry entry_bytes put_uint
read_entry-entry_bytes e h g = ap₂ entry (field e.offset h) (field e.position g)

read_entries-all_bytes :
    (es : List IndexEntry) → AreEntries es → read_entries (length es) (all_bytes es) ≡ es
unfolding read_entries all_bytes
read_entries-all_bytes [] h = refl
read_entries-all_bytes (e ∷ es) (ho, hp, h) =
    let rest = all_bytes es in
    ap₂ (◌∷◌)
      (ap (λ n. read_entry (take n (entry_bytes e ++ rest))) (sym (length-entry_bytes e))
        ∙ ap read_entry (take-append (entry_bytes e) rest)
        ∙ read_entry-entry_bytes e ho hp)
      (ap (λ n. read_entries (length es) (drop n (entry_bytes e ++ rest)))
          (sym (length-entry_bytes e))
        ∙ ap (read_entries (length es)) (drop-append (entry_bytes e) rest)
        ∙ read_entries-all_bytes es h)

abbrev pub with_file : List ℕ → Disk → Disk
with_file bs d = record d { index_file = some bs }

module _ (d : Disk) (healthy : (x : Syscall) → d.failing x ≡ false) where
  write_entries_lem :
      (bs : List ℕ) (es : List IndexEntry)
      → write_entries es (with_file bs d) ≡ (ok tt, with_file (bs ++ all_bytes es) d)
  unfolding write_entries all_bytes
  write_entries_lem bs [] = ap (λ x. (ok tt, with_file x d)) (sym (append-nil bs))
  write_entries_lem bs (e ∷ es) = rw (healthy write_call) (
      write_entries_lem (bs ++ entry_bytes e) es
      ∙ ap (λ x. (ok tt, with_file x d)) (append_assoc bs (entry_bytes e) (all_bytes es)))

  read_some_lem :
      (bs : List ℕ) (n : ℕ)
      → read_some n bs (with_file bs d) ≡ (ok (read_entries n bs), with_file bs d)
  unfolding read_some read_entries
  read_some_lem bs zero = refl
  read_some_lem bs (suc n) = rw (healthy read_call) refl

  read_all_lem :
      (bs : List ℕ)
      → read_all bs (with_file bs d)
        ≡ (ok (read_entries (length bs / index_entry_size) bs), with_file bs d)
  unfolding read_all read_entries
  read_all_lem [] = refl
  read_all_lem (b ∷ bs) = read_some_lem (b ∷ bs) (length (b ∷ bs) / index_entry_size)

  load_lem :
      (bs : List ℕ)
      → load (with_file bs d)
        ≡ (ok (read_entries (length bs / index_entry_size) bs), with_file bs d)
  unfolding load
  load_lem bs = rw (healthy open_call) (rw (healthy stat_call) (read_all_lem bs))

  -- The file as `load` reads it back.
  pub load-all_bytes :
      (es : List IndexEntry)
      → AreEntries es
      → load (with_file (all_bytes es) d) ≡ (ok es, with_file (all_bytes es) d)
  load-all_bytes es h =
      let count : length (all_bytes es) / index_entry_size ≡ length es =
        omega (arith, length-all_bytes es) in
      load_lem (all_bytes es)
      ∙ ap (λ n. (ok (read_entries n (all_bytes es)), with_file (all_bytes es) d)) count
      ∙ ap (λ x. (ok x, with_file (all_bytes es) d)) (read_entries-all_bytes es h)

-- What `persist` does once the file is open: `b` is `file_open`.
abbrev pub written : On Index → Bool → On Index
written s b = record {
  self = record s.self { file_open = b; dirty = false };
  disk = with_file (all_bytes s.self.entries) s.disk;
}

module _ (s : On Index) (healthy : (x : Syscall) → s.disk.failing x ≡ false) where
  pub persist_lem : persist s ≡ (ok tt, written s true)
  unfolding persist reopen
  persist_lem = elim (Bool-cases s.self.file_open) [
    | inl is_open ↦ rw is_open (
        rw (healthy truncate_call) (
          rw (healthy seek_call) (
            rw (write_entries_lem s.disk healthy [] s.self.entries) (rw (healthy sync_call) refl))))
    | inr is_shut ↦ rw is_shut (
        rw (healthy open_call) (
          rw (healthy truncate_call) (
            rw (healthy seek_call) (
              rw (write_entries_lem s.disk healthy [] s.self.entries)
                (rw (healthy sync_call) refl)))))
  ]

-- The outcome of a `persist`: the entries stay, and `load` gives them back.
pub record Persists (s : On Index) (r : Result (Unit {0}) × On Index) : Type 0 where
  pub returned : r.0 ≡ ok tt
  pub clean : r.1.self.dirty ≡ false
  pub same_entries : r.1.self.entries ≡ s.self.entries
  pub loads : load r.1.disk ≡ (ok s.self.entries, r.1.disk)

module _ (s : On Index) (healthy : (x : Syscall) → s.disk.failing x ≡ false) where
  -- On an unfailing disk `persist` succeeds, whether the file was open or not, and `load` of what it
  -- wrote gives the same entries, when their fields are int64 values.
  pub persist-Persists : AreEntries s.self.entries → Persists s (persist s)
  persist-Persists h = subst (Persists s) (sym (persist_lem s healthy)) (record {
    returned = refl;
    clean = refl;
    same_entries = refl;
    loads = load-all_bytes s.disk healthy s.self.entries h;
  })
