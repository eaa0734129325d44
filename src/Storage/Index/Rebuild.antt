-- ===== src/Storage/Index/Rebuild.antt =====
-- pkg/storage/index.go: `Rebuild` and `scanSegment`.
pub mod Rounds
pub mod Scanned
use yuclase.Base.{
  ℕ, zero, suc, ◌+◌, ◌%◌, ◌^◌, Bool, true, List, [], ◌∷◌, ◌++◌, length, take, drop, ltb,
  if◌then◌else◌,
}
use yuclase.Base.Int64.{ℤ, pos, add64, shl32, or64}
use yuclase.Base.Bytes.{codes, read_uint}
use yuclase.Base.Exec.{read_call, seek_call, os_error, ok, pure, gets, raise, wrapping, ◌>>=◌, ◌>>◌}
use yuclase.Storage.Disk.{on_disk, system_call, open_read}
use yuclase.Storage.Log.Segments.{list_segments}
use yuclase.Storage.Index.Entries.{IndexEntry, IndexM, set_index}
use yuclase.Storage.Index.File.{persist}

-- The loop of `scanSegment` over the bytes from the file's cursor on, on fuel: the entries that it
-- appends, and whether a call failed. `position` is kept apart from the cursor: its step is a sum
-- of uint32.
unfoldable pub scan_loop : ℕ → ℤ → List ℕ → ℤ → List IndexEntry
scan_loop zero segment bytes position = []
scan_loop (suc fuel) segment bytes position =
    let data_size = read_uint 0 (drop 8 (take 12 bytes)) in
    let entry : IndexEntry = record {
      offset = or64 (shl32 segment) position;
      position = position;
    } in
    let rest =
      scan_loop fuel segment (drop data_size (drop 12 bytes))
        (add64 position (pos ((12 + data_size) % 2 ^ 32))) in
    if ltb (length bytes) 12 then [] else entry ∷ rest

-- A failing `Seek` ends the scan after the first entry.
add_scanned : Bool → List IndexEntry → IndexM (Unit {0})
add_scanned true (e ∷ es) =
    (set_index λ i. record i { entries = i.entries ++ e ∷ [] }) >> raise (os_error seek_call)
add_scanned _ es = set_index λ i. record i { entries = i.entries ++ es }

-- `scanSegment`: each round takes twelve bytes at least, so the length of the file is fuel enough.
unfoldable pub scan_segment : List ℕ → ℤ → IndexM (Unit {0})
unfolding add_scanned
scan_segment name segment = do
  inode ← on_disk (open_read name)
  bytes ← on_disk (system_call read_call (λ d. (ok (d.content inode), d)))
  no_seek ← gets (λ s. s.disk.failing seek_call)
  add_scanned no_seek (scan_loop (suc (length bytes)) segment bytes (pos 0))

-- The loop of `Rebuild`: the segment's index is its place in the directory's listing.
unfoldable pub scan_segments : ℕ → List (List ℕ) → IndexM (Unit {0})
scan_segments index [] = pure tt
scan_segments index (name ∷ names) =
    wrapping (codes "failed to scan segment " ++ name) (scan_segment name (pos index))
    >> scan_segments (index + 1) names

-- `Rebuild`
unfoldable pub rebuild : IndexM (Unit {0})
rebuild = do
  set_index λ i. record i { entries = [] }
  names ← wrapping (codes "failed to list segments") (on_disk list_segments)
  scan_segments 0 names
  set_index λ i. record i { dirty = true }
  persist
