-- ===== src/Storage/Index/File.antt =====
-- pkg/storage/index.go: the index file, `load`, `persist`, `Sync` and `Close`.
pub mod RoundTrip
pub mod Reopening
use yuclase.Base.{
  ℕ, zero, suc, ◌/◌, Bool, true, false, Option, none, some, List, [], ◌∷◌, ◌++◌, length, take, drop,
  if◌then◌else◌,
}
use yuclase.Base.Int64.{pattern64, signed64}
use yuclase.Base.Bytes.{codes, put_uint, read_uint, decimal}
use yuclase.Base.Exec.{
  mkdir_call, open_call, stat_call, write_call, sync_call, seek_call, read_call, truncate_call,
  close_call, os_error, wrap, Result, ok, err, pure, gets, wrapping, when, ◌>>=◌, ◌>>◌,
}
use yuclase.Storage.Disk.{Disk, On, on_disk, system_call}
use yuclase.Storage.Index.Entries.{IndexEntry, Index, IndexM, set_index}

-- IndexEntrySize
abbrev pub index_entry_size : ℕ
index_entry_size = 16

unfoldable pub entry_bytes : IndexEntry → List ℕ
entry_bytes e = put_uint 8 (pattern64 e.offset) ++ put_uint 8 (pattern64 e.position)

unfoldable pub read_entry : List ℕ → IndexEntry
read_entry buf = record {
  offset = signed64 (read_uint 0 (take 8 buf));
  position = signed64 (read_uint 0 (drop 8 buf));
}

-- The first `n` entries of the file.
unfoldable pub read_entries : ℕ → List ℕ → List IndexEntry
read_entries zero bytes = []
read_entries (suc n) bytes =
    read_entry (take index_entry_size bytes) ∷ read_entries n (drop index_entry_size bytes)

-- os.OpenFile(path, O_CREATE|O_RDWR)
abbrev pub file_bytes : Option (List ℕ) → List ℕ
file_bytes none = []
file_bytes (some bytes) = bytes

open_index : Disk → Result (List ℕ) × Disk
open_index =
    system_call open_call
      λ d. (ok (file_bytes d.index_file), record d { index_file = some (file_bytes d.index_file) })

-- The loop of `load` over `n` entries.
read_some : ℕ → List ℕ → Disk → Result (List IndexEntry) × Disk
read_some zero bytes = pure []
read_some (suc n) bytes =
    wrapping (codes "failed to read index entry " ++ decimal 0)
      (system_call read_call (λ d. (ok (read_entries (suc n) bytes), d)))

-- An empty file has no entries; an incomplete entry at the end is not read.
read_all : List ℕ → Disk → Result (List IndexEntry) × Disk
unfolding read_some
read_all [] = pure []
read_all (b ∷ bs) = read_some (length (b ∷ bs) / index_entry_size) (b ∷ bs)

-- `load`
unfoldable pub load : Disk → Result (List IndexEntry) × Disk
unfolding open_index read_all
load = do bytes ← open_index; system_call stat_call (λ d. (ok tt, d)); read_all bytes

-- `NewIndex`
unfoldable pub new_index : Disk → Result Index × Disk
new_index d =
    if d.failing mkdir_call
    then (err (wrap (codes "failed to create index directory") (os_error mkdir_call)), d)
    else ((do
      entries ← wrapping (codes "failed to load index") load
      pure (record { entries = entries; file_open = true; dirty = false }))
        d)

-- A write at the end of the index file.
write_entry : IndexEntry → Disk → Result (Unit {0}) × Disk
write_entry e =
    system_call write_call
      λ d. (ok tt, record d { index_file = some (file_bytes d.index_file ++ entry_bytes e) })

write_entries : List IndexEntry → Disk → Result (Unit {0}) × Disk
unfolding write_entry
write_entries [] = pure tt
write_entries (e ∷ es) =
    wrapping (codes "failed to write index entry") (write_entry e) >> write_entries es

-- Opened with O_TRUNC where there is no open file.
reopen : IndexM (Unit {0})
reopen =
    (on_disk (system_call open_call (λ d. (ok tt, record d { index_file = some [] }))))
    >> set_index λ i. record i { file_open = true }

-- `persist`
unfoldable pub persist : IndexM (Unit {0})
unfolding reopen write_entries
persist = do
  is_open ← gets (λ s. s.self.file_open)
  if is_open then pure tt else reopen
  on_disk (system_call truncate_call (λ d. (ok tt, record d { index_file = some [] })))
  on_disk (system_call seek_call (λ d. (ok tt, d)))
  entries ← gets (λ s. s.self.entries)
  on_disk (write_entries entries)
  on_disk (system_call sync_call (λ d. (ok tt, d)))
  set_index λ i. record i { dirty = false }

-- `Sync`
unfoldable pub sync : IndexM (Unit {0})
sync = do dirty ← gets (λ s. s.self.dirty); when dirty persist

close_file : Bool → IndexM (Unit {0})
close_file true =
    (set_index λ i. record i { file_open = false })
    >> on_disk (system_call close_call (λ d. (ok tt, d)))
close_file false = pure tt

-- `Close`
unfoldable pub close : IndexM (Unit {0})
unfolding close_file
close = do
  dirty ← gets (λ s. s.self.dirty)
  when dirty persist
  is_open ← gets (λ s. s.self.file_open)
  close_file is_open
