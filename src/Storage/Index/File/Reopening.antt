-- ===== src/Storage/Index/File/Reopening.antt =====
-- `Close` and `NewIndex` of pkg/storage/index.go: an index that is closed and opened again.
use yuclase.Base.Int64.{IsInt64}
use yuclase.Base.{
  none, ℕ, zero, suc, set, [], ◌∷◌, ◌≡◌, ◌∙◌, refl, ap, Bool-cases, inl, inr, true, false, some,
  List,
}
use mathlib.Core.Path.{ap₂}
use yuclase.Base.Exec.{
  Syscall, open_call, stat_call, mkdir_call, close_call, Result, ok, bind_result, when,
}
use yuclase.Storage.Disk.{Disk, On}
use yuclase.Storage.Index.Entries.{
  IndexEntry, Index, insert_position, holds_offset, insert_at, add_to,
}
use yuclase.Storage.Index.File.{load, open_index, read_all, persist, close_file, close, new_index}
use yuclase.Storage.Index.File.RoundTrip.{
  AreEntries, all_bytes, with_file, persist_lem, load-all_bytes,
}

-- The file is open, and it has what the memory has, unless the index is dirty.
pub record IsSaved (s : On Index) : Type 0 where
  pub entries : AreEntries s.self.entries
  pub file_open : s.self.file_open ≡ true
  pub same : s.self.dirty ≡ false → s.disk.index_file ≡ some (all_bytes s.self.entries)

-- What `Close` leaves.
abbrev pub shut : On Index → On Index
shut s = record {
  self = record s.self { file_open = false; dirty = false };
  disk = with_file (all_bytes s.self.entries) s.disk;
}

abbrev pub opened : List IndexEntry → Index
opened es = record { entries = es; file_open = true; dirty = false }

-- The end of `Close`.
abbrev closing : Result (Unit {0}) × On Index → Result (Unit {0}) × On Index
closing (r, s) = bind_result r (λ _ t. close_file t.self.file_open t) s

module _ (s : On Index) (healthy : (x : Syscall) → s.disk.failing x ≡ false) where
  pub close_lem : IsSaved s → close s ≡ (ok tt, shut s)
  unfolding close close_file
  close_lem h = elim (Bool-cases s.self.dirty) [
    | inl dirty ↦
        ap (λ b. closing (when b persist s)) dirty
        ∙ ap closing (persist_lem s healthy)
        ∙ rw (healthy close_call) refl
    | inr clean ↦
        ap (λ b. closing (when b persist s)) clean
        ∙ rw (h.file_open, healthy close_call)
            (ap₂
              (λ b f. (
                ok tt,
                record {
                  self = record s.self { file_open = false; dirty = b };
                  disk = record s.disk { index_file = f };
                },
              ))
              clean (h.same clean))
  ]

module _ (d : Disk) (healthy : (x : Syscall) → d.failing x ≡ false) (es : List IndexEntry) where
  pub new_index_lem :
      AreEntries es
      → new_index (with_file (all_bytes es) d) ≡ (ok (opened es), with_file (all_bytes es) d)
  unfolding new_index
  new_index_lem h = rw (healthy mkdir_call) rw (load-all_bytes d healthy es h) refl

module _ (d : Disk) (healthy : (x : Syscall) → d.failing x ≡ false) where
  -- `NewIndex` where there is no file makes an empty one.
  pub new_index_empty :
      d.index_file ≡ none → new_index d ≡ (ok (opened []), with_file (all_bytes []) d)
  unfolding new_index load open_index read_all all_bytes
  new_index_empty absent =
      rw (healthy mkdir_call) rw (healthy open_call) rw absent rw (healthy stat_call) refl

module _ (e : IndexEntry) (ho : IsInt64 e.offset) (hp : IsInt64 e.position) where
  set-AreEntries : (es : List IndexEntry) (p : ℕ) → AreEntries es → AreEntries (set es p e)
  set-AreEntries [] p h = tt
  set-AreEntries (x ∷ es) zero h = (ho, hp, h.2)
  set-AreEntries (x ∷ es) (suc p) h = (h.0, h.1, set-AreEntries es p h.2)

  insert_at-AreEntries :
      (es : List IndexEntry) (p : ℕ) → AreEntries es → AreEntries (insert_at es p e)
  insert_at-AreEntries [] zero h = (ho, hp, tt)
  insert_at-AreEntries [] (suc p) h = (ho, hp, tt)
  insert_at-AreEntries (x ∷ es) zero h = (ho, hp, h)
  insert_at-AreEntries (x ∷ es) (suc p) h = (h.0, h.1, insert_at-AreEntries es p h.2)

  pub add_to-AreEntries : (es : List IndexEntry) → AreEntries es → AreEntries (add_to e es)
  unfolding add_to
  add_to-AreEntries es h =
      let p = insert_position e.offset es in
      elim (Bool-cases (holds_offset e.offset es p)) [
        | inl found ↦ rw found (set-AreEntries es p h)
        | inr new ↦ rw new (insert_at-AreEntries es p h)
      ]
