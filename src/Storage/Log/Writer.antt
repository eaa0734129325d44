-- ===== src/Storage/Log/Writer.antt =====
-- pkg/storage/log.go: the log's state, its buffered writer and `sync`.
pub mod Writing
use yuclase.Base.{
  ℕ, ◌-◌, Bool, true, false, Option, none, some, List, [], ◌∷◌, ◌++◌, length, take, drop, leb,
  if◌then◌else◌,
}
use yuclase.Base.Int64.{ℤ, shl32, or64, shr32, low32}
use yuclase.Base.Exec.{
  write_call, sync_call, os_error, Result, ok, err, panic, Exec, raise, gets, modify, ◌>>=◌, ◌>>◌,
}
use yuclase.Storage.Disk.{On, on_disk, system_call, append_to}

-- MessageHeaderSize
abbrev pub message_header_size : ℕ
message_header_size = 12

-- The buffer of a `bufio.Writer`; an error of its file stays (`broken`).
pub record Writer : Type 0 where
  pub buffered : List ℕ
  pub broken : Bool

-- An `*os.File`.
pub record Handle : Type 0 where
  pub inode : ℕ
  pub closed : Bool

-- The writer writes to `file`: both are set together. The path is the disk's directory.
pub record Log : Type 0 where
  pub file : Option Handle
  pub writer : Option Writer
  pub current_size : ℤ
  pub max_size : ℤ
  pub segment_index : ℤ
  pub last_sync : ℤ
  pub sync_interval : ℤ

pub record LogEntry : Type 0 where
  pub timestamp : ℤ
  pub payload : List ℕ
  pub offset : ℤ

abbrev pub LogM : Type 0 → Type 0
LogM A = Exec (On Log) A

-- Sets fields of the log.
abbrev pub set_log : (Log → Log) → LogM (Unit {0})
set_log f = modify λ s. record { self = f s.self; disk = s.disk }

-- A write to the open file, straight from `bufio`.
write_handle : Option Handle → List ℕ → LogM (Unit {0})
write_handle none bytes = raise (os_error write_call)
write_handle (some h) bytes =
    if h.closed then raise (os_error write_call) else on_disk (append_to h.inode bytes)

-- After a write to the file: an error stays in the writer, else `rest` is the buffer.
settle : List ℕ → Result (Unit {0}) × On Log → Result (Unit {0}) × On Log
settle rest (ok u, s) = (
  ok tt,
  record s { self = record s.self { writer = some (record { buffered = rest; broken = false }) } },
)
settle rest (err e, s) = (
  err e,
  record s { self = record s.self { writer = some (record { buffered = rest; broken = true }) } },
)
settle rest (r, s) = (r, s)

-- bufio.Writer.Flush: nothing is written of an empty buffer.
flush_writer : Option Writer → LogM (Unit {0})
unfolding settle write_handle
flush_writer none s = (panic, s)
flush_writer (some w) s = if w.broken then (err (os_error write_call), s) else elim w.buffered [
  | [] ↦ (ok tt, s)
  | (b ∷ bs) ↦ settle [] (write_handle s.self.file (b ∷ bs) s)
]

flush : LogM (Unit {0})
unfolding flush_writer
flush s = flush_writer s.self.writer s

abbrev buffer_size : ℕ
buffer_size = 4096

-- What is left of `p` when the buffer is empty: a long piece goes to the file at once.
write_rest : List ℕ → LogM (Unit {0})
unfolding settle write_handle
write_rest p s =
    if leb (length p) buffer_size
    then (
      ok tt,
      record s { self = record s.self { writer = some (record { buffered = p; broken = false }) } },
    )
    else settle [] (write_handle s.self.file p s)

-- bufio.Writer.Write: the buffer is filled up and flushed before the rest.
write_to : Option Writer → List ℕ → LogM (Unit {0})
unfolding settle write_handle
write_to none p s = (panic, s)
write_to (some w) p s =
    let room = buffer_size - length w.buffered in
    if w.broken
    then (err (os_error write_call), s)
    else if leb (length p) room
    then (
      ok tt,
      record s {
        self = record s.self {
          writer = some (record { buffered = w.buffered ++ p; broken = false });
        };
      },
    )
    else elim w.buffered [
      | [] ↦ write_rest p s
      | (b ∷ bs) ↦
          ((λ t. settle [] (write_handle t.self.file (w.buffered ++ take room p) t))
              >> write_rest (drop room p))
            s
    ]

unfoldable pub write : List ℕ → LogM (Unit {0})
unfolding write_to write_rest
write p s = write_to s.self.writer p s

-- os.File.Sync
sync_handle : Option Handle → LogM (Unit {0})
sync_handle none = raise (os_error sync_call)
sync_handle (some h) =
    if h.closed
    then raise (os_error sync_call)
    else on_disk (system_call sync_call (λ d. (ok tt, d)))

-- `sync`, and `Sync` under the lock.
unfoldable pub sync : LogM (Unit {0})
unfolding flush sync_handle
sync = do
  flush
  handle ← gets (λ s. s.self.file)
  sync_handle handle
  now ← gets (λ s. s.disk.now)
  set_log λ l. record l { last_sync = now }

-- `getGlobalOffset` and `parseGlobalOffset`
unfoldable pub get_global_offset : ℤ → ℤ → ℤ
unfolding or64 shl32
get_global_offset segment_index local_offset = or64 (shl32 segment_index) local_offset

unfoldable pub parse_global_offset : ℤ → ℤ × ℕ
unfolding shr32 low32
parse_global_offset global_offset = (shr32 global_offset, low32 global_offset)
