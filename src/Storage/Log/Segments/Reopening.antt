-- ===== src/Storage/Log/Segments/Reopening.antt =====
-- `Close` and `NewLog` of pkg/storage/log.go: a log that is closed and opened again.
use yuclase.Base.{ℕ, ◌≡◌, refl, none, List}
use yuclase.Base.Int64.{ℤ, pos}
use yuclase.Base.Exec.{mkdir_call, close_call, write_call, sync_call, Result, ok}
use yuclase.Base.{◌+◌, false, [], ◌∷◌, bytes_eq, bytes_eq_refl, arith}
use yuclase.Base.Bytes.{decimal}
use yuclase.Base.Assoc.{lookup, insert_sorted}
use yuclase.Base.Exec.{Syscall, read_dir_call, open_call}
use yuclase.Storage.Segment.{segment_name, max_index, scan_segment_name, scan_magnitude, ext}
use yuclase.Storage.Log.Segments.{open_current_segment, find_latest_segment}
use yuclase.Storage.Disk.{Disk, On, file, update, read_dir, open_append}
use yuclase.Storage.Log.Writer.{Log, sync}
use yuclase.Storage.Log.Writer.Writing.{sync-Syncs, side_files}
use yuclase.Storage.Log.Segments.{new_log, close}
use yuclase.Storage.Log.Segments.Rotation.{
  HasSegment, IsOpen, IsOpen→Writing, Synced→HasSegment, Synced→KeepsRest, open_current_segment_lem,
  fresh, stat_size_lem,
}

-- The outcome of a `Close`: the file has all of the content.
pub record Closes (i k : ℕ) (c : List ℕ) (s : On Log) (r : Result (Unit {0}) × On Log)
    : Type 0 where
  pub returned : r.0 ≡ ok tt
  pub on_disk : HasSegment i k c r.1.disk
  pub now : r.1.disk.now ≡ s.disk.now
  pub side : side_files r.1.disk ≡ side_files s.disk

module _ {i k : ℕ} {c : List ℕ} (s : On Log) where
  pub close-Closes : IsOpen i k c s → Closes i k c s (close s)
  unfolding close
  close-Closes o =
      let h = o.on_disk in
      let (r, v) = sync-Syncs (h.healthy write_call) (h.healthy sync_call) (IsOpen→Writing o) in
      let t = (sync s).1 in
      let g = Synced→HasSegment h v in
      let kept = Synced→KeepsRest v in
      rw (r, v.0.handle, g.healthy close_call)
        (record { returned = refl; on_disk = g; now = kept.now; side = kept.side })

-- The log before `NewLog` opens its segment.
abbrev pub unopened : ℤ → ℤ → Disk → On Log
unopened max_size sync_interval d = record {
  self = record {
    file = none;
    writer = none;
    current_size = pos 0;
    max_size = max_size;
    segment_index = pos 0;
    last_sync = d.now;
    sync_interval = sync_interval;
  };
  disk = d;
}

module _ {i k : ℕ} {c : List ℕ} (max_size sync_interval : ℤ) (d : Disk) where
  -- `NewLog` opens the latest segment with all of its content.
  pub new_log_lem :
      HasSegment i k c d
      → new_log max_size sync_interval d
        ≡ (ok (fresh i k c (unopened max_size sync_interval d)).self, d)
  unfolding new_log
  new_log_lem h =
      rw (h.healthy mkdir_call)
        (rw (open_current_segment_lem (unopened max_size sync_interval d) h) refl)

only_latest : (i : ℕ) → max_index (pos 0) ((segment_name (pos 0), file i) ∷ []) ≡ pos 0
unfolding segment_name max_index scan_segment_name scan_magnitude ext decimal bytes_eq
only_latest i = refl

-- The disk after `NewLog` in an empty directory.
abbrev pub created : Disk → Disk
created d = record d {
  entries = (segment_name (pos 0), file d.next_inode) ∷ [];
  content = update d.content d.next_inode [];
  modified = update d.modified d.next_inode d.now;
  next_inode = d.next_inode + 1;
}

module _ (d : Disk) (healthy : (x : Syscall) → d.failing x ≡ false) where
  pub created-HasSegment : HasSegment d.next_inode 0 [] (created d)
  unfolding lookup
  created-HasSegment = record {
    linked = rw (bytes_eq_refl (segment_name (pos 0))) refl;
    latest = only_latest d.next_inode;
    content = ground arith;
    healthy = healthy;
  }

  latest_empty : d.entries ≡ [] → find_latest_segment d ≡ pos 0
  unfolding max_index find_latest_segment
  latest_empty empty = rw (find_latest_segment, read_dir, healthy read_dir_call) (rw empty refl)

  open_append_empty :
      d.entries ≡ [] → open_append (segment_name (pos 0)) d ≡ (ok d.next_inode, created d)
  unfolding open_append lookup insert_sorted
  open_append_empty empty = rw (healthy open_call) rw empty refl

  -- `NewLog` in an empty directory makes segment 0.
  pub new_log_empty :
      (max_size sync_interval : ℤ)
      → d.entries ≡ []
      → new_log max_size sync_interval d
        ≡ (ok (fresh d.next_inode 0 [] (unopened max_size sync_interval d)).self, created d)
  unfolding new_log open_current_segment
  new_log_empty max_size sync_interval empty = rw (healthy mkdir_call) (
      rw (latest_empty empty)
        (rw (open_append_empty empty) (rw (stat_size_lem created-HasSegment) refl)))
