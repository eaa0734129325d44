-- ===== src/Topic/Upkeep/Orphans.antt =====
-- `CleanupOldMessages` of pkg/queue/topic.go on the segment that is open.
use yuclase.Base.{ℕ, ◌^◌, ◌<◌, true, none, List, [], ◌∷◌, ◌++◌, bytes_eq, if◌then◌else◌, ◌≡◌}
use yuclase.Base.Int64.{ℤ, pos}
use yuclase.Base.Bytes.{codes, decimal}
use yuclase.Base.Exec.{Error, not_exist, wrap, Result, ok, err}
use yuclase.Base.Assoc.{lookup, remove}
use yuclase.Storage.Disk.{Disk, On}
use yuclase.Storage.Segment.{segment_name}
use yuclase.Storage.Catalog.Consumers.{get_offset}
use yuclase.Storage.Index.File.RoundTrip.{written}
use yuclase.Storage.Index.Entries.{Index}
use yuclase.Storage.Index.Rebuild.Scanned.{rebuilt}
use yuclase.Topic.State.{Topic}
use yuclase.Topic.Messages.{dequeue}

-- The names other than `k`.
without : List ℕ → List (List ℕ) → List (List ℕ)
without k [] = []
without k (n ∷ ns) = let rest = without k ns in if bytes_eq n k then rest else n ∷ rest

abbrev name : List ℕ
name = segment_name (pos 0)

abbrev removed : Disk → Disk
removed d = record d { entries = remove name d.entries }

-- `Read` of an offset of the segment finds no file.
abbrev no_file : Error
no_file = wrap (codes "failed to open segment " ++ decimal 0) not_exist

-- What `Dequeue` returns then.
abbrev pub unreadable : Error
unreadable = wrap (codes "failed to read from log") no_file

-- What `CleanupOldMessages` leaves when the open segment was the only file of its directory: the
-- log keeps the file that it writes to, and nothing that it holds can be read.
pub record Orphans (s : On Topic) (r : Result (Unit {0}) × On Topic) : Type 0 where
  pub returned : r.0 ≡ ok tt
  pub unlinked : lookup name r.1.disk.entries ≡ none
  pub same_log : r.1.self.log ≡ s.self.log
  pub same_content : r.1.disk.content ≡ s.disk.content
  pub unread :
      (id : List ℕ) (n : ℤ) (o : ℕ)
      → o < 2 ^ 32
      → get_offset id s.self.catalog ≡ pos o
      → (dequeue id n r.1).0 ≡ err unreadable

-- The topic after its only segment is deleted and its index is rebuilt from nothing.
abbrev orphaned : On Topic → On Topic
orphaned s =
    let t = written (rebuilt [] (record { self = s.self.index; disk = removed s.disk })) true in
    record { self = record s.self { index = t.self }; disk = t.disk }
