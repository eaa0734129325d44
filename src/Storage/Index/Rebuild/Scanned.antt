-- ===== src/Storage/Index/Rebuild/Scanned.antt =====
-- `Rebuild` of pkg/storage/index.go over segments that hold messages.
use yuclase.Base.{
  ℕ, suc, ◌+◌, ◌^◌, ◌<◌, true, false, some, List, [], ◌∷◌, ◌++◌, append-nil, append_assoc, length,
  length-append, ◌≡◌, sym, ap, ◌∙◌, arith,
}
use mathlib.Core.Path.{subst}
use yuclase.Base.Int64.{pos}
use yuclase.Base.Bytes.{codes}
use yuclase.Base.Exec.{
  Syscall, read_call, seek_call, open_call, read_dir_call, Result, ok, bind_result, wrap_result,
}
use yuclase.Base.Assoc.{lookup}
use yuclase.Storage.Disk.{Disk, On, file, open_read, read_dir}
use yuclase.Storage.Log.Messages.Appending.{message_bytes, length-message_bytes}
use yuclase.Storage.Log.Messages.Sequence.{Message, log_bytes, AreMessages}
use yuclase.Storage.Log.Segments.{list_segments, segment_files}
use yuclase.Storage.Index.Entries.{IndexEntry, Index}
use yuclase.Storage.Index.File.{persist}
use yuclase.Storage.Index.File.RoundTrip.{AreEntries, Persists, persist-Persists}
use yuclase.Storage.Index.Rebuild.Rounds.{offsets_at, entries_from, scan_loop_lem}
use yuclase.Storage.Index.Rebuild.{scan_segment, scan_segments, rebuild}

-- The segment files `names` of a disk hold the messages, each of them fewer than 2 ^ 32 bytes.
abbrev pub HoldSegments : Disk → List (List ℕ) → List (List Message) → Type 0
HoldSegments d [] [] = Unit {0}
HoldSegments d [] (ms ∷ mss) = ⊥
HoldSegments d (name ∷ names) [] = ⊥
HoldSegments d (name ∷ names) (ms ∷ mss) =
    (i : ℕ) × (lookup name d.entries ≡ some (file i))
    × (d.content i ≡ log_bytes ms)
    × AreMessages ms
    × (length (log_bytes ms) < 2 ^ 32)
    × HoldSegments d names mss

abbrev appended : List IndexEntry → On Index → On Index
appended es s = record { self = record s.self { entries = s.self.entries ++ es }; disk = s.disk }

abbrev scanned :
    ℕ → List ℕ → List (List ℕ) → Result (Unit {0}) × On Index → Result (Unit {0}) × On Index
scanned k name names (r, t) =
    bind_result (wrap_result (codes "failed to scan segment " ++ name) r)
      (λ _. scan_segments (k + 1) names) t

-- The end of `Rebuild`.
abbrev marked : On Index → Result (Unit {0}) × On Index
marked t = persist (record { self = record t.self { dirty = true }; disk = t.disk })

module _ (d : Disk) (healthy : (x : Syscall) → d.failing x ≡ false) where
  scan_segment_lem :
      (x : Index) (name : List ℕ) (k i : ℕ) (ms : List Message)
      → lookup name d.entries ≡ some (file i)
      → d.content i ≡ log_bytes ms
      → AreMessages ms
      → length (log_bytes ms) < 2 ^ 32
      → k < 2 ^ 31
      → scan_segment name (pos k) (record { self = x; disk = d })
        ≡ (ok tt, appended (offsets_at k 0 ms) (record { self = x; disk = d }))
  unfolding scan_segment open_read
  scan_segment_lem x name k i ms found holds h small hk =
      rw (healthy open_call) rw found rw (healthy read_call) rw (healthy seek_call) rw holds (
        ap (λ es. (ok tt, appended es (record { self = x; disk = d })))
          (scan_loop_lem (suc (length (log_bytes ms))) k 0 ms h hk (omega arith) (omega arith)))

  scan_segments_lem :
      (x : Index) (k : ℕ) (names : List (List ℕ)) (mss : List (List Message))
      → HoldSegments d names mss
      → k + length mss < 2 ^ 31
      → scan_segments k names (record { self = x; disk = d })
        ≡ (ok tt, appended (entries_from k mss) (record { self = x; disk = d }))
  unfolding scan_segments entries_from
  scan_segments_lem x k [] [] h hk =
      ap (λ es. (ok tt, record { self = record x { entries = es }; disk = d }))
        (sym (append-nil x.entries))
  scan_segments_lem x k [] (ms ∷ mss) h hk = absurd h
  scan_segments_lem x k (name ∷ names) [] h hk = absurd h
  scan_segments_lem x k (name ∷ names) (ms ∷ mss) (i, found, holds, are, small, more) hk =
      let x' = record x { entries = x.entries ++ offsets_at k 0 ms } in
      ap (scanned k name names) (scan_segment_lem x name k i ms found holds are small (omega arith))
      ∙ scan_segments_lem x' (k + 1) names mss more (omega arith)
      ∙ ap (λ es. (ok tt, record { self = record x { entries = es }; disk = d }))
          (append_assoc x.entries (offsets_at k 0 ms) (entries_from (k + 1) mss))

offsets_at-AreEntries :
    (k o : ℕ) (ms : List Message)
    → k < 2 ^ 31
    → o + length (log_bytes ms) < 2 ^ 32
    → AreEntries (offsets_at k o ms)
unfolding offsets_at log_bytes
offsets_at-AreEntries k o [] hk ho = tt
offsets_at-AreEntries k o (m ∷ ms) hk ho = (
  omega arith,
  omega arith,
  offsets_at-AreEntries k (o + (12 + length m.payload)) ms hk (
      omega (
        arith,
        length-append (message_bytes m.timestamp m.payload) (log_bytes ms),
        length-message_bytes m.timestamp m.payload,
      )),
)

append-AreEntries :
    (es fs : List IndexEntry) → AreEntries es → AreEntries fs → AreEntries (es ++ fs)
append-AreEntries [] fs h g = g
append-AreEntries (e ∷ es) fs h g = (h.0, h.1, append-AreEntries es fs h.2 g)

entries_from-AreEntries :
    (d : Disk) (k : ℕ) (names : List (List ℕ)) (mss : List (List Message))
    → HoldSegments d names mss
    → k + length mss < 2 ^ 31
    → AreEntries (entries_from k mss)
unfolding entries_from
entries_from-AreEntries d k names [] h hk = tt
entries_from-AreEntries d k [] (ms ∷ mss) h hk = absurd h
entries_from-AreEntries d k (name ∷ names) (ms ∷ mss) (i, found, holds, are, small, more) hk =
    append-AreEntries (offsets_at k 0 ms) (entries_from (k + 1) mss)
      (offsets_at-AreEntries k 0 ms (omega arith) (omega arith))
      (entries_from-AreEntries d (k + 1) names mss more (omega arith))

-- The index that a rebuild is to persist.
abbrev pub rebuilt : List (List Message) → On Index → On Index
rebuilt mss s = record {
  self = record s.self { entries = entries_from 0 mss; dirty = true };
  disk = s.disk;
}

module _ (s : On Index) (healthy : (x : Syscall) → s.disk.failing x ≡ false) (names : List (List ℕ))
    (mss : List (List Message)) where
  pub rebuild_lem :
      segment_files s.disk.entries ≡ names
      → HoldSegments s.disk names mss
      → length mss < 2 ^ 31
      → rebuild s ≡ persist (rebuilt mss s)
  unfolding rebuild list_segments read_dir
  rebuild_lem listed h small = rw (healthy read_dir_call) rw listed (
      ap (λ (p : Result (Unit {0}) × On Index). bind_result p.0 (λ _. marked) p.1)
        (scan_segments_lem s.disk healthy (record s.self { entries = [] }) 0 names mss h
          (omega arith)))

  -- On an unfailing disk whose segment files hold messages, `Rebuild` succeeds and leaves one entry
  -- for each message of each segment, in order, whatever the index held before: its position is
  -- where the message begins, and its offset is that with the place of the segment in the
  -- directory's listing in the upper 32 bits. `load` of the file that it writes gives them back.
  pub rebuild-Persists :
      segment_files s.disk.entries ≡ names
      → HoldSegments s.disk names mss
      → length mss < 2 ^ 31
      → Persists (rebuilt mss s) (rebuild s)
  rebuild-Persists listed h small =
      subst (Persists (rebuilt mss s)) (sym (rebuild_lem listed h small)) (
        persist-Persists (rebuilt mss s) healthy
          (entries_from-AreEntries s.disk 0 names mss h (omega arith)))
