-- ===== src/Storage/Log/Tests.antt =====
-- Runs of pkg/storage/log.go, and the log's theorems at concrete inputs.
use yuclase.Base.{◌+◌, ◌*◌, ◌^◌, List, [], ◌∷◌, length, bytes_eq, ◌≡◌, refl, arith}
use yuclase.Base.Int64.{pos}
use yuclase.Base.Bytes.{codes, put_uint, decimal}
use yuclase.Base.Exec.{ok}
use yuclase.Base.Assoc.{lookup}
use yuclase.Storage.Disk.{Disk}
use yuclase.Storage.Segment.{segment_name, max_index, scan_segment_name, scan_magnitude, ext}
use yuclase.Storage.Samples.{segment_disk, open_log_state, sample_IsOpen}
use yuclase.Storage.Log.Segments.{rotate_segment}
use yuclase.Storage.Log.Segments.Rotation.{HasSegment, IsOpen, KeepsRest, rotate_segment_lem}
use yuclase.Storage.Log.Messages.{append, read_from, header_bytes}
use yuclase.Storage.Log.Messages.Appending.{Appends, append-Appends}
use yuclase.Storage.Log.Messages.Sequence.{Message, log_bytes, entries_at, read_from-messages}

append_example : Appends 0 0 [] (codes "hi") open_log_state (append (codes "hi") open_log_state)
append_example = append-Appends (codes "hi") open_log_state sample_IsOpen (omega arith)

rotate_example :
    ((rotate_segment open_log_state).0 ≡ ok tt)
    × IsOpen 0 0 [] (rotate_segment open_log_state).1
    × KeepsRest 0 open_log_state (rotate_segment open_log_state).1
rotate_example = rotate_segment_lem open_log_state sample_IsOpen

-- Two messages in one segment.
abbrev two_messages : List Message
two_messages =
    record { timestamp = pos 7; payload = codes "hi" }
    ∷ record { timestamp = pos 8; payload = [] }
    ∷ []

abbrev two_disk : Disk
two_disk = record segment_disk { content = λ i. log_bytes two_messages }

two_HasSegment : HasSegment 0 0 (log_bytes two_messages) two_disk
unfolding lookup segment_name max_index scan_segment_name scan_magnitude ext decimal bytes_eq
two_HasSegment = record { linked = refl; latest = refl; content = refl; healthy = λ x. refl }

length_two : length (log_bytes two_messages) ≡ 26
unfolding log_bytes header_bytes put_uint
length_two = refl

read_from_example :
    read_from (pos (0 * 2 ^ 32 + 0)) two_disk ≡ ok (entries_at (0 * 2 ^ 32 + 0) two_messages)
read_from_example =
    read_from-messages two_HasSegment [] two_messages refl
      ((omega arith, omega arith, (omega arith, omega arith, tt))) (omega (arith, length_two))
      (omega arith)
