-- ===== src/Storage/Log/Segments.antt =====
-- pkg/storage/log.go: opening, rotating, listing and closing segments.
pub mod Rotation
pub mod Reopening
use yuclase.Base.{
  ℕ, true, false, Option, none, some, List, [], ◌∷◌, length, bytes_eq, if◌then◌else◌,
}
use yuclase.Base.Int64.{ℤ, pos, add64}
use yuclase.Base.Bytes.{codes}
use yuclase.Base.Exec.{
  mkdir_call, stat_call, close_call, wrap, os_error, Result, ok, err, pure, raise, gets, wrapping,
  ◌>>=◌, ◌>>◌,
}
use yuclase.Storage.Disk.{
  Node, sub_directory, file, Disk, on_disk, system_call, open_append, read_dir, remove_file,
}
use yuclase.Storage.Segment.{segment_name, max_index, ext}
use yuclase.Storage.Log.Writer.{Handle, Log, LogM, set_log, sync, get_global_offset}

-- `findLatestSegment`: a directory that cannot be read counts as empty.
unfoldable pub find_latest_segment : Disk → ℤ
unfolding read_dir
find_latest_segment d = elim (read_dir d).0 [ ok entries ↦ max_index (pos 0) entries | _ ↦ pos 0 ]

-- file.Stat().Size()
unfoldable pub stat_size : ℕ → Disk → Result ℤ × Disk
stat_size i = system_call stat_call (λ d. (ok (pos (length (d.content i))), d))

unfoldable pub open_current_segment : LogM (Unit {0})
open_current_segment = do
  latest ← gets (λ s. find_latest_segment s.disk)
  set_log λ l. record l { segment_index = latest }
  inode ← on_disk (open_append (segment_name latest))
  size ← on_disk (stat_size inode)
  set_log λ l. record l {
    file = some (record { inode = inode; closed = false });
    writer = some (record { buffered = []; broken = false });
    current_size = size;
  }

abbrev pub close_handle : Option Handle → Option Handle
close_handle none = none
close_handle (some h) = some (record h { closed = true })

unfoldable pub rotate_segment : LogM (Unit {0})
rotate_segment = do
  sync
  set_log λ l. record l { file = close_handle l.file }
  set_log λ l. record l { segment_index = add64 l.segment_index (pos 1); current_size = pos 0 }
  open_current_segment

-- `NewLog`
unfoldable pub new_log : ℤ → ℤ → Disk → Result Log × Disk
new_log max_size sync_interval d =
    if d.failing mkdir_call
    then (err (wrap (codes "failed to create log directory") (os_error mkdir_call)), d)
    else let start : Log = record {
      file = none;
      writer = none;
      current_size = pos 0;
      max_size = max_size;
      segment_index = pos 0;
      last_sync = d.now;
      sync_interval = sync_interval;
    } in
      let (r, s) =
        (wrapping (codes "failed to open log segment") open_current_segment >> gets (λ s. s.self))
          (record { self = start; disk = d }) in
      (r, s.disk)

-- `Close`: an error of the file's own `Close` comes back after the field is cleared.
close_file : Option Handle → LogM (Unit {0})
close_file none = pure tt
close_file (some h) =
    (set_log λ l. record l { file = none })
    >> (if h.closed
        then raise (os_error close_call)
        else on_disk (system_call close_call (λ d. (ok tt, d))))

unfoldable pub close : LogM (Unit {0})
unfolding sync close_file
close = do
  sync
  set_log λ l. record l { writer = none }
  handle ← gets (λ s. s.self.file)
  close_file handle

-- `GetSize`
unfoldable pub get_size : Log → ℤ
unfolding get_global_offset
get_size l = get_global_offset l.segment_index l.current_size

-- The names that `ListSegments` keeps.
unfoldable pub segment_files : List (List ℕ × Node) → List (List ℕ)
unfolding ext
segment_files [] = []
segment_files ((name, sub_directory) ∷ es) = segment_files es
segment_files ((name, file i) ∷ es) =
    let rest = segment_files es in if bytes_eq (ext name) (codes ".log") then name ∷ rest else rest

unfoldable pub list_segments : Disk → Result (List (List ℕ)) × Disk
unfolding read_dir segment_files
list_segments = do entries ← read_dir; pure (segment_files entries)

-- `DeleteSegment`
unfoldable pub delete_segment : List ℕ → Disk → Result (Unit {0}) × Disk
unfolding remove_file
delete_segment name = remove_file name
