-- ===== src/Storage/Log/Messages/Appending.antt =====
-- `Append` of pkg/storage/log.go on an open log.
use yuclase.Base.{
  ℕ, ◌+◌, ◌^◌, ◌<◌, ◌≡◌, refl, sym, ap, ◌∙◌, Bool, true, false, some, List, ◌++◌, length,
  length-append, arith, append_assoc,
}
use mathlib.Core.Path.{subst, ap₂}
use yuclase.Base.Int64.{ℤ, pos, add64, add64_pos, ltb_ℤ}
use yuclase.Base.Bytes.{codes}
use yuclase.Base.Exec.{
  Result, ok, bind_result, write_call, sync_call, when, wrapping, wrap_result, gets, ◌>>=◌, ◌>>◌,
}
use yuclase.Storage.Disk.{On}
use yuclase.Storage.Log.Writer.{Log, sync, write, get_global_offset, set_log, LogM}
use yuclase.Storage.Log.Writer.Writing.{Writing, write-Writes, sync-Syncs}
use yuclase.Storage.Log.Segments.{rotate_segment}
use yuclase.Storage.Log.Segments.Rotation.{
  IsOpen, IsOpen→Writing, KeepsRest, KeepsRest-refl, KeepsRest-trans, Synced→HasSegment,
  Synced→KeepsRest, rotate_segment_lem,
}
use yuclase.Storage.Log.Messages.{append, header_bytes, message_size}

-- A message on disk.
abbrev pub message_bytes : ℤ → List ℕ → List ℕ
message_bytes timestamp payload = header_bytes timestamp payload ++ payload

pub length-header_bytes : (t : ℤ) (p : List ℕ) → length (header_bytes t p) ≡ 12
unfolding header_bytes
length-header_bytes t p = refl

pub length-message_bytes : (t : ℤ) (p : List ℕ) → length (message_bytes t p) ≡ 12 + length p
length-message_bytes t p =
    omega (arith, length-append (header_bytes t p) p, length-header_bytes t p)

-- The rotation, if there is one, leaves an open log of the same segment and content.
rotated :
    {i k : ℕ} {c : List ℕ} (s : On Log) (full : Bool)
    → IsOpen i k c s
    → let r = when full (wrapping (codes "failed to rotate segment") rotate_segment) s in
      (r.0 ≡ ok tt) × IsOpen i k c r.1 × KeepsRest i s r.1
rotated {i} s false o = (refl, o, KeepsRest-refl i s)
rotated s true o =
    let (r, o', kept) = rotate_segment_lem s o in
    (ap (wrap_result (codes "failed to rotate segment")) r, o', kept)

-- currentSize += messageSize
abbrev counted : List ℕ → On Log → On Log
counted p s = record s {
  self = record s.self { current_size = add64 s.self.current_size (message_size p) };
}

module _ {i : ℕ} {c : List ℕ} {s t : On Log} where
  Writing-counted : (p : List ℕ) → Writing i c s t → Writing i c (counted p s) (counted p t)
  Writing-counted p w = record {
    buffer = w.buffer;
    writer = w.writer;
    handle = w.handle;
    whole = w.whole;
    size = ap (λ n. add64 n (message_size p)) w.size;
    max_size = w.max_size;
    segment = w.segment;
    entries = w.entries;
    failing = w.failing;
    now = w.now;
    side = w.side;
    others = w.others;
  }

module _ {i k : ℕ} {c : List ℕ} (p : List ℕ) (s : On Log) (o : IsOpen i k c s) where
  -- header, payload and the new size, before the last `sync`
  written :
      let r = write (header_bytes s.disk.now p) s in
      let q = write p r.1 in
      (r.0 ≡ ok tt)
      × (q.0 ≡ ok tt)
      × Writing i (c ++ message_bytes s.disk.now p) (counted p s) (counted p q.1)
  written =
      let can_write = o.on_disk.healthy write_call in
      let (r, w) = write-Writes can_write (header_bytes s.disk.now p) (IsOpen→Writing o) in
      let (q, v) = write-Writes can_write p w in
      (
        r,
        q,
        subst
            (λ b.
              Writing i b (counted p s)
                (counted p (write p (write (header_bytes s.disk.now p) s).1).1))
            (append_assoc c (header_bytes s.disk.now p) p) (Writing-counted p v),
      )

  stored :
      length c + (12 + length p) < 2 ^ 63
      → let u = counted p (write p (write (header_bytes s.disk.now p) s).1).1 in
        ((sync u).0 ≡ ok tt)
        × IsOpen i k (c ++ message_bytes s.disk.now p) (sync u).1
        × KeepsRest i s (sync u).1
  stored fits =
      let (r, q, w) = written in
      let h = o.on_disk in
      let (e, v) = sync-Syncs (h.healthy write_call) (h.healthy sync_call) w in
      let kept = Synced→KeepsRest v in
      (
        e,
        record {
          handle = v.0.handle;
          writer = v.0.writer ∙ ap (λ b. some (record { buffered = b; broken = false })) v.1;
          size =
              v.0.size
              ∙ ap (λ n. add64 n (message_size p)) o.size
              ∙ add64_pos (length c) (12 + length p) fits
              ∙ ap pos (
                  omega (
                    arith,
                    length-append c (message_bytes s.disk.now p),
                    length-message_bytes s.disk.now p,
                  ));
          segment = v.0.segment ∙ o.segment;
          on_disk = Synced→HasSegment h v;
        },
        record {
          entries = kept.entries;
          now = kept.now;
          side = kept.side;
          max_size = kept.max_size;
          others = kept.others;
        },
      )

-- What `Append` does once there is room.
abbrev store : List ℕ → LogM ℤ
store payload = do
  offset ← gets (λ s. s.self.current_size)
  timestamp ← gets (λ s. s.disk.now)
  wrapping (codes "failed to write header") (write (header_bytes timestamp payload))
  wrapping (codes "failed to write data") (write payload)
  set_log λ l. record l { current_size = add64 l.current_size (message_size payload) }
  wrapping (codes "failed to sync") sync
  gets (λ s. get_global_offset s.self.segment_index offset)

-- The outcome of an `Append` at a state: the offset, and the log that it leaves.
abbrev pub Appends : ℕ → ℕ → List ℕ → List ℕ → On Log → Result ℤ × On Log → Type 0
Appends i k c p s r =
    (r.0 ≡ ok (get_global_offset (pos k) (pos (length c))))
    × IsOpen i k (c ++ message_bytes s.disk.now p) r.1
    × KeepsRest i s r.1

module _ {i k : ℕ} {c : List ℕ} (p : List ℕ) (s : On Log) where
  store-Appends :
      IsOpen i k c s → length c + (12 + length p) < 2 ^ 63 → Appends i k c p s (store p s)
  store-Appends o fits =
      let (r, q, w) = written p s o in
      let (e, open', kept) = stored p s o fits in
      rw r (rw q (rw e (ap ok (cong open'), open', kept)))
    where
      cong :
          {t : On Log} {b : List ℕ}
          → IsOpen i k b t
          → get_global_offset t.self.segment_index s.self.current_size
            ≡ get_global_offset (pos k) (pos (length c))
      cong v = ap₂ get_global_offset v.segment o.size

module _ {i k : ℕ} {c : List ℕ} (p : List ℕ) (s : On Log) where
  -- On an open log whose disk refuses no call, `Append` returns the offset at which the content
  -- ended, adds the header and the payload to the content of the same segment, whatever the size
  -- limit, and leaves the log open and everything else on the disk as it was. The bytes of the
  -- segment fit an int64.
  pub append-Appends :
      IsOpen i k c s → length c + (12 + length p) < 2 ^ 63 → Appends i k c p s (append p s)
  unfolding append
  append-Appends o fits =
      let full = ltb_ℤ s.self.max_size (add64 s.self.current_size (message_size p)) in
      let turn = when full (wrapping (codes "failed to rotate segment") rotate_segment) in
      let (r, o', kept) = rotated s full o in
      let s' = (turn s).1 in
      let (e, stored', kept') = store-Appends p s' o' fits in
      let same = subst (λ t. IsOpen i k (c ++ message_bytes t p) (store p s').1) kept.now stored' in
      subst (λ x. Appends i k c p s (bind_result x (λ _. store p) s')) (sym r)
        (e, same, KeepsRest-trans kept kept')
