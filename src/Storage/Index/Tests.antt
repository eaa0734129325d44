-- ===== src/Storage/Index/Tests.antt =====
-- Runs of pkg/storage/index.go, and the index's theorems at concrete inputs.
use yuclase.Base.{
  ℕ, ◌==◌, bytes_eq, Bool, true, false, List, [], ◌∷◌, ◌≡◌, refl, arith, leb, if◌then◌else◌,
}
use yuclase.Base.Int64.{pos, eq_ℤ}
use yuclase.Base.Bytes.{codes}
use yuclase.Base.Assoc.{lookup}
use yuclase.Base.Exec.{ok}
use yuclase.Storage.Disk.{On, file}
use yuclase.Storage.Segment.{segment_name}
use yuclase.Storage.Log.Messages.{header_bytes}
use yuclase.Storage.Log.Messages.Sequence.{Message, log_bytes}
use yuclase.Storage.Log.Segments.{segment_files}
use yuclase.Storage.Index.Rebuild.{rebuild}
use yuclase.Storage.Index.Rebuild.Scanned.{HoldSegments, rebuilt, rebuild-Persists}
use yuclase.Storage.Samples.{empty_disk}
use yuclase.Storage.Index.Entries.{
  IndexEntry, Index, add_to, add_entry, get_position, get_closest_position, get_range, sort_search,
}
use yuclase.Storage.Index.Entries.Search.{IsFirst, sort_search-IsFirst}
use yuclase.Storage.Index.Entries.Sorted.{IsSorted, add_to-IsSorted, get_position-add_entry}
use yuclase.Storage.Index.Entries.Lookups.{closest, within, get_closest_position_lem, get_range_lem}
use yuclase.Storage.Index.File.RoundTrip.{Persists}

abbrev entry : ℕ → ℕ → IndexEntry
entry o p = record { offset = pos o; position = pos p }

abbrev entries : List IndexEntry
entries = entry 0 0 ∷ entry 1000 40 ∷ entry 2000 80 ∷ []

entries-IsSorted : IsSorted entries
entries-IsSorted = ((omega arith, (omega arith, tt)), ((omega arith, tt), (tt, tt)))

abbrev index : On Index
index = record {
  self = record { entries = entries; file_open = false; dirty = true };
  disk = empty_disk;
}

abbrev at_three : ℕ → Bool
at_three i = leb 3 i

found_three : sort_search 5 at_three ≡ 3
unfolding sort_search
found_three = refl

search_example : IsFirst at_three 5 (sort_search 5 at_three)
search_example = sort_search-IsFirst at_three 5 (λ i j p q h. ground arith)

add_to_example : IsSorted (add_to (entry 1500 60) entries)
add_to_example = add_to-IsSorted (entry 1500 60) entries entries-IsSorted

position_example :
    get_position (pos 1000) (add_entry (pos 1500) (pos 60) index).1.self
    ≡ (if eq_ℤ (pos 1500) (pos 1000) then ok (pos 60) else get_position (pos 1000) index.self)
position_example = get_position-add_entry (pos 1000) (pos 1500) (pos 60) index entries-IsSorted

closest_example :
    get_closest_position (pos 1999) index.self
    ≡ ok (
      (closest (pos 1999) (entry 0 0) (entry 1000 40 ∷ entry 2000 80 ∷ [])).offset,
      (closest (pos 1999) (entry 0 0) (entry 1000 40 ∷ entry 2000 80 ∷ [])).position,
    )
closest_example =
    get_closest_position_lem (pos 1999) index.self (entry 0 0) (entry 1000 40 ∷ entry 2000 80 ∷ [])
      refl entries-IsSorted

range_example : get_range (pos 500) (pos 1500) entries ≡ within (pos 500) (pos 1500) entries
range_example = get_range_lem (pos 500) (pos 1500) entries entries-IsSorted

abbrev message : ℕ → List ℕ → Message
message t p = record { timestamp = pos t; payload = p }

abbrev oldest : List Message
oldest = message 5 (codes "hi") ∷ message 6 (codes "there") ∷ []

abbrev latest : List Message
latest = message 7 [] ∷ []

-- The segments in between have been removed.
abbrev two_segments : On Index
two_segments = record {
  self = index.self;
  disk = record empty_disk {
    entries = (segment_name (pos 0), file 4) ∷ (segment_name (pos 3), file 9) ∷ [];
    content = λ i. if i == 4 then log_bytes oldest else log_bytes latest;
  };
}

two_segments_listed :
    segment_files two_segments.disk.entries ≡ segment_name (pos 0) ∷ segment_name (pos 3) ∷ []
unfolding segment_files segment_name bytes_eq
two_segments_listed = refl

two_segments_held :
    HoldSegments two_segments.disk
      (segment_name (pos 0) ∷ segment_name (pos 3) ∷ [])
      (oldest ∷ latest ∷ [])
unfolding lookup segment_name bytes_eq log_bytes header_bytes
two_segments_held = (
  4,
  refl,
  refl,
  (omega arith, omega arith, (omega arith, omega arith, tt)),
  omega arith,
  (9, refl, refl, (omega arith, omega arith, tt), omega arith, tt),
)

rebuild_example : Persists (rebuilt (oldest ∷ latest ∷ []) two_segments) (rebuild two_segments)
rebuild_example =
    rebuild-Persists two_segments (λ x. refl) (segment_name (pos 0) ∷ segment_name (pos 3) ∷ [])
      (oldest ∷ latest ∷ []) two_segments_listed two_segments_held (omega arith)
