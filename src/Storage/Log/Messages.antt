-- ===== src/Storage/Log/Messages.antt =====
-- pkg/storage/log.go: `Append`, `Read` and `ReadFrom`.
pub mod Appending
pub mod Reading
pub mod Sequence
use yuclase.Base.{
  ℕ, zero, suc, ◌+◌, ◌%◌, ◌^◌, Bool, true, List, [], ◌∷◌, ◌++◌, length, take, drop, ltb, bytes_eq,
  if◌then◌else◌,
}
use yuclase.Base.Int64.{ℤ, pos, ltb_ℤ, pattern64, signed64, add64}
use yuclase.Base.Bytes.{codes, put_uint, read_uint, decimal_ℤ}
use yuclase.Base.Exec.{
  seek_call, read_call, Error, wrap, not_exist, text, eof, unexpected_eof, os_error, error_text,
  Result, ok, err, panic, deadlock, stuck, pure, gets, wrapping, when, ◌>>=◌, ◌>>◌,
}
use yuclase.Storage.Disk.{Node, sub_directory, file, Disk, system_call, open_read}
use yuclase.Storage.Segment.{segment_name}
use yuclase.Storage.Log.Writer.{
  LogEntry, LogM, set_log, sync, write, get_global_offset, parse_global_offset, message_header_size,
}
use yuclase.Storage.Log.Segments.{rotate_segment}

-- The header of a message: the timestamp, and the size as a uint32.
unfoldable pub header_bytes : ℤ → List ℕ → List ℕ
unfolding pattern64 put_uint
header_bytes timestamp payload =
    put_uint 8 (pattern64 timestamp) ++ put_uint 4 (length payload % 2 ^ 32)

abbrev pub message_size : List ℕ → ℤ
message_size payload = pos (message_header_size + length payload)

-- `Append`
unfoldable pub append : List ℕ → LogM ℤ
append payload = do
  full ← gets (λ s. ltb_ℤ s.self.max_size (add64 s.self.current_size (message_size payload)))
  when full (wrapping (codes "failed to rotate segment") rotate_segment)
  offset ← gets (λ s. s.self.current_size)
  timestamp ← gets (λ s. s.disk.now)
  wrapping (codes "failed to write header") (write (header_bytes timestamp payload))
  wrapping (codes "failed to write data") (write payload)
  set_log λ l. record l { current_size = add64 l.current_size (message_size payload) }
  wrapping (codes "failed to sync") sync
  gets (λ s. get_global_offset s.self.segment_index offset)

-- io.ReadFull of `n` bytes, of which `rest` is what the file has left.
full_or_short : ℕ → List ℕ → Result (List ℕ)
full_or_short n [] = err eof
full_or_short n (b ∷ bs) =
    if ltb (length (b ∷ bs)) n then err unexpected_eof else ok (take n (b ∷ bs))

-- io.ReadFull from position `p` of the open file `i`: no read is made for no bytes.
unfoldable pub read_full : ℕ → ℕ → ℕ → Disk → Result (List ℕ) × Disk
unfolding full_or_short
read_full i p n d =
    if ltb 0 n
    then system_call read_call (λ d. (full_or_short n (drop p (d.content i)), d)) d
    else (ok [], d)

-- `Read`: the position in the file follows the bytes that were read.
unfoldable pub read_at : ℤ → ℕ → ℤ → Disk → Result LogEntry × Disk
read_at segment_index local_offset global_offset = do
  inode ←
      wrapping (codes "failed to open segment " ++ decimal_ℤ segment_index)
        (open_read (segment_name segment_index))
  wrapping (codes "failed to seek to offset " ++ decimal_ℤ (pos local_offset))
      (system_call seek_call (λ d. (ok tt, d)))
  header ←
      wrapping (codes "failed to read header") (read_full inode local_offset message_header_size)
  let timestamp = signed64 (read_uint 0 (take 8 header))
  let data_size = read_uint 0 (drop 8 header)
  payload ←
      wrapping (codes "failed to read data")
        (read_full inode (local_offset + message_header_size) data_size)
  pure (record { timestamp = timestamp; payload = payload; offset = global_offset })

unfoldable pub read : ℤ → Disk → Result LogEntry × Disk
read global_offset =
    let (segment_index, local_offset) = parse_global_offset global_offset in
    read_at segment_index local_offset global_offset

-- The end of the loop of `ReadFrom`: `err == io.EOF || err.Error() == "failed to read header: EOF"`.
is_end : Error → Bool
unfolding error_text bytes_eq
is_end eof = true
is_end unexpected_eof = bytes_eq (error_text unexpected_eof) (codes "failed to read header: EOF")
is_end not_exist = bytes_eq (error_text not_exist) (codes "failed to read header: EOF")
is_end (os_error c) = bytes_eq (error_text (os_error c)) (codes "failed to read header: EOF")
is_end (text t) = bytes_eq t (codes "failed to read header: EOF")
is_end (wrap c e) = bytes_eq (error_text (wrap c e)) (codes "failed to read header: EOF")

-- What one round of `ReadFrom` does with the result of `Read`.
abbrev pub next_offset : LogEntry → ℤ → ℤ
next_offset e o = add64 o (message_size e.payload)

-- entries = append(entries, entry)
collect : LogEntry → Result (List LogEntry) → Result (List LogEntry)
collect e (ok es) = ok (e ∷ es)
collect e r = r

-- The rounds of `ReadFrom`, on fuel, without the list that they collect.
unfoldable pub read_loop : ℕ → ℤ → Disk → Result (List LogEntry)
unfolding is_end collect
read_loop zero o d = stuck
read_loop (suc fuel) o d = elim (read o d).0 [
  | ok e ↦ collect e (read_loop fuel (next_offset e o) d)
  | err x ↦ if is_end x then ok [] else err x
  | panic ↦ panic
  | deadlock ↦ deadlock
  | stuck ↦ stuck
]

-- The bytes of all files of the directory, one more than there are: each round but the last reads
-- twelve bytes that no other round reads.
pub total_bytes : (ℕ → List ℕ) → List (List ℕ × Node) → ℕ
total_bytes content [] = 1
total_bytes content ((name, sub_directory) ∷ es) = total_bytes content es
total_bytes content ((name, file i) ∷ es) = length (content i) + total_bytes content es

-- `ReadFrom`
unfoldable pub read_from : ℤ → Disk → Result (List LogEntry)
unfolding total_bytes
read_from o d = read_loop (total_bytes d.content d.entries) o d
