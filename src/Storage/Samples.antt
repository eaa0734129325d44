-- ===== src/Storage/Samples.antt =====
-- A disk and an open log for the examples.
use yuclase.Base.{refl, bytes_eq, false, none, some, [], ◌∷◌}
use yuclase.Base.Int64.{pos}
use yuclase.Base.Bytes.{decimal}
use yuclase.Storage.Disk.{Disk, On, file}
use yuclase.Storage.Segment.{segment_name, max_index, scan_segment_name, scan_magnitude, ext}
use yuclase.Base.Assoc.{lookup}
use yuclase.Storage.Log.Segments.Rotation.{HasSegment, IsOpen}
use yuclase.Storage.Log.Writer.{Log}

abbrev pub empty_disk : Disk
empty_disk = record {
  entries = [];
  content = λ i. [];
  modified = λ i. pos 0;
  next_inode = 0;
  index_file = none;
  catalog_file = none;
  catalog_temp = none;
  now = pos 1000;
  failing = λ c. false;
}

-- One empty segment, and the file of an empty index.
abbrev pub segment_disk : Disk
segment_disk = record empty_disk {
  entries = (segment_name (pos 0), file 0) ∷ [];
  next_inode = 1;
  index_file = some [];
}

abbrev pub open_log : Log
open_log = record {
  file = some (record { inode = 0; closed = false });
  writer = some (record { buffered = []; broken = false });
  current_size = pos 0;
  segment_index = pos 0;
  max_size = pos 100;
  sync_interval = pos 0;
  last_sync = pos 0;
}

abbrev pub open_log_state : On Log
open_log_state = record { self = open_log; disk = segment_disk }

pub sample_HasSegment : HasSegment 0 0 [] segment_disk
unfolding lookup segment_name max_index scan_segment_name scan_magnitude ext decimal bytes_eq
sample_HasSegment = record { linked = refl; latest = refl; content = refl; healthy = λ x. refl }

pub sample_IsOpen : IsOpen 0 0 [] open_log_state
sample_IsOpen = record {
  handle = refl;
  writer = refl;
  size = refl;
  segment = refl;
  on_disk = sample_HasSegment;
}
