-- ===== src/Storage/Log/Messages/Sequence.antt =====
-- `ReadFrom` of pkg/storage/log.go on a segment that holds a sequence of messages.
use yuclase.Base.{
  ℕ, zero, suc, ◌+◌, ◌*◌, ◌^◌, ◌<◌, ◌≤◌, ◌≡◌, refl, sym, ap, ◌∙◌, some, List, [], ◌∷◌, ◌++◌, length,
  length-append, arith, append-nil, append_assoc,
}
use yuclase.Base.Int64.{IsInt64, ℤ, pos, add64, add64_pos}
use yuclase.Base.Exec.{ok, err, eof, wrap, seek_call}
use yuclase.Base.Bytes.{codes}
use yuclase.Base.Assoc.{lookup}
use yuclase.Storage.Disk.{Node, sub_directory, file, Disk}
use yuclase.Storage.Segment.{segment_name}
use yuclase.Storage.Log.Writer.{LogEntry}
use yuclase.Storage.Log.Offsets.{parse_global_offset_pos}
use yuclase.Storage.Log.Segments.Rotation.{HasSegment}
use yuclase.Storage.Log.Messages.{read_at, read, read_loop, read_from, total_bytes, collect}
use yuclase.Storage.Log.Messages.Appending.{message_bytes, length-message_bytes}
use yuclase.Storage.Log.Messages.Reading.{open_read_lem, read_at_lem, read_full_at_end}

-- A message: its timestamp and its payload.
pub record Message : Type 0 where
  pub timestamp : ℤ
  pub payload : List ℕ

-- The bytes of a sequence of messages.
unfoldable pub log_bytes : List Message → List ℕ
log_bytes [] = []
log_bytes (m ∷ ms) = message_bytes m.timestamp m.payload ++ log_bytes ms

-- The entries that a reader gets of the messages that begin at offset `o`.
unfoldable pub entries_at : ℕ → List Message → List LogEntry
entries_at o [] = []
entries_at o (m ∷ ms) =
    record { timestamp = m.timestamp; payload = m.payload; offset = pos o }
    ∷ entries_at (o + (12 + length m.payload)) ms

-- Each timestamp is an int64 and each size a uint32.
abbrev pub AreMessages : List Message → Type 0
AreMessages [] = Unit
AreMessages (m ∷ ms) = IsInt64 m.timestamp × (length m.payload < 2 ^ 32) × AreMessages ms

pub log_bytes-append : (ms ns : List Message) → log_bytes (ms ++ ns) ≡ log_bytes ms ++ log_bytes ns
unfolding log_bytes
log_bytes-append [] ns = refl
log_bytes-append (m ∷ ms) ns =
    ap (λ t. message_bytes m.timestamp m.payload ++ t) (log_bytes-append ms ns)
    ∙ sym (append_assoc (message_bytes m.timestamp m.payload) (log_bytes ms) (log_bytes ns))

length-log_bytes : (ms : List Message) → length ms ≤ length (log_bytes ms)
unfolding log_bytes
length-log_bytes [] = omega arith
length-log_bytes (m ∷ ms) = omega (
  arith,
  length-log_bytes ms,
  length-append (message_bytes m.timestamp m.payload) (log_bytes ms),
  length-message_bytes m.timestamp m.payload,
)

module _ {i k : ℕ} {c : List ℕ} {d : Disk} (h : HasSegment i k c d) where
  -- `Read` of the offset of a message.
  pub read_message :
      (before : List ℕ) (m : Message) (after : List ℕ)
      → c ≡ before ++ (message_bytes m.timestamp m.payload ++ after)
      → AreMessages (m ∷ [])
      → length before < 2 ^ 32
      → read (pos (k * 2 ^ 32 + length before)) d ≡ (
        ok (record {
          timestamp = m.timestamp;
          payload = m.payload;
          offset = pos (k * 2 ^ 32 + length before);
        }),
        d,
      )
  unfolding read
  read_message before m after e (ht, hp, _) hb =
      rw (parse_global_offset_pos k (length before) hb)
        (read_at_lem h before m.timestamp m.payload after _ e ht hp)

  -- `Read` of the offset at which the segment ends.
  read_end :
      length c < 2 ^ 32
      → read (pos (k * 2 ^ 32 + length c)) d ≡ (err (wrap (codes "failed to read header") eof), d)
  unfolding read read_at
  read_end hc =
      rw (parse_global_offset_pos k (length c) hc)
        (rw (open_read_lem h) (rw (h.healthy seek_call) (rw (read_full_at_end h))))

  -- The rounds of `ReadFrom` over the messages `ms`, which the segment ends with.
  read_loop_lem :
      (fuel : ℕ) (before : List ℕ) (ms : List Message)
      → c ≡ before ++ log_bytes ms
      → AreMessages ms
      → length c < 2 ^ 32
      → k < 2 ^ 31
      → length ms < fuel
      → read_loop fuel (pos (k * 2 ^ 32 + length before)) d
        ≡ ok (entries_at (k * 2 ^ 32 + length before) ms)
  unfolding read_loop log_bytes entries_at
  read_loop_lem zero before ms e hm hc hk hf = absurd (omega arith)
  read_loop_lem (suc fuel) before [] e hm hc hk hf =
      let at_end : length before ≡ length c = ap length (sym (e ∙ append-nil before)) in
      rw (at_end) (rw (read_end hc, read_loop))
  read_loop_lem (suc fuel) before (m ∷ ms) e hm hc hk hf =
      let size = 12 + length m.payload in
      let bytes = message_bytes m.timestamp m.payload in
      let e' : c ≡ (before ++ bytes) ++ log_bytes ms =
        e ∙ sym (append_assoc before bytes (log_bytes ms)) in
      let reach : length (before ++ bytes) ≡ length before + size =
        length-append before bytes
        ∙ ap (λ n. length before + n) (length-message_bytes m.timestamp m.payload) in
      let total : length c ≡ length before + size + length (log_bytes ms) =
        ap length e'
        ∙ length-append (before ++ bytes) (log_bytes ms)
        ∙ ap (λ n. n + length (log_bytes ms)) reach in
      let next : add64 (pos (k * 2 ^ 32 + length before)) (pos size)
          ≡ pos (k * 2 ^ 32 + length (before ++ bytes)) =
        add64_pos (k * 2 ^ 32 + length before) size (omega arith) ∙ ap pos (omega (arith, reach)) in
      let later = read_loop_lem fuel (before ++ bytes) ms e' hm.2 hc hk (omega arith) in
      let place : k * 2 ^ 32 + length (before ++ bytes) ≡ k * 2 ^ 32 + length before + size =
        omega (arith, reach) in
      let entry : LogEntry = record {
        timestamp = m.timestamp;
        payload = m.payload;
        offset = pos (k * 2 ^ 32 + length before);
      } in
      rw (read_message before m (log_bytes ms) e (hm.0, hm.1, tt) (omega arith), read_loop)
        (ap (λ o. collect entry (read_loop fuel o d)) next
          ∙ ap (collect entry) later
          ∙ ap (λ o. ok (entry ∷ entries_at o ms)) place)

pub total_bytes_pos :
    (content : ℕ → List ℕ) (es : List (List ℕ × Node)) → 0 < total_bytes content es
unfolding total_bytes
total_bytes_pos content [] = omega arith
total_bytes_pos content ((j, sub_directory) ∷ es) = total_bytes_pos content es
total_bytes_pos content ((j, file m) ∷ es) = omega (arith, total_bytes_pos content es)

-- The file of an entry is counted.
total_bytes-file :
    (content : ℕ → List ℕ) (name : List ℕ) (i : ℕ) (es : List (List ℕ × Node))
    → lookup name es ≡ some (file i)
    → length (content i) < total_bytes content es
unfolding lookup total_bytes
total_bytes-file content name i [] h = ground arith
total_bytes-file content name i ((j, sub_directory) ∷ es) h =
    ground (arith, total_bytes-file content name i es)
total_bytes-file content name i ((j, file m) ∷ es) h =
    ground (arith, total_bytes-file content name i es, total_bytes_pos content es)

module _ {i k : ℕ} {c : List ℕ} {d : Disk} (h : HasSegment i k c d) where
  -- A segment that ends with the messages `ms` is read from where they begin: `ReadFrom` returns
  -- all of them, in order, with the payloads and timestamps that were written and the offsets at
  -- which they stand. It needs an unfailing disk, a segment index below 2 ^ 31, fewer than 2 ^ 32
  -- bytes in the segment, and timestamps and sizes that fit their fields.
  pub read_from-messages :
      (before : List ℕ) (ms : List Message)
      → c ≡ before ++ log_bytes ms
      → AreMessages ms
      → length c < 2 ^ 32
      → k < 2 ^ 31
      → read_from (pos (k * 2 ^ 32 + length before)) d
        ≡ ok (entries_at (k * 2 ^ 32 + length before) ms)
  unfolding read_from
  read_from-messages before ms e hm hc hk =
      read_loop_lem h (total_bytes d.content d.entries) before ms e hm hc hk (
        omega (
          arith,
          ap length e,
          length-append before (log_bytes ms),
          length-log_bytes ms,
          ap length h.content,
          total_bytes-file d.content (segment_name (pos k)) i d.entries h.linked,
        ))
