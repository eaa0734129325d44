-- ===== src/Storage/Log/Messages/Reading.antt =====
-- `Read` and `ReadFrom` of pkg/storage/log.go on what `Append` wrote.
use yuclase.Base.{
  ℕ, suc, ◌+◌, ◌^◌, ◌<◌, ◌≤◌, ◌≡◌, refl, sym, ap, ◌∙◌, false, List, [], ◌∷◌, ◌++◌, length,
  length-append, take, drop, drop-append, take-append, arith, append-nil, append_assoc, ltb, lt→ltb,
}
use native.Mathlib.Nat.{mod-eq_of_lt}
use mathlib.Core.Path.{ap₂}
use yuclase.Base.Int64.{ℤ, pos, pattern64, signed64, IsInt64, pattern64_lt, signed64-pattern64}
use yuclase.Base.Bytes.{put_uint, read_uint, read_uint-put_uint_32, read_uint-put_uint_64}
use yuclase.Base.Exec.{ok, err, eof, read_call, seek_call, open_call}
use yuclase.Storage.Disk.{Disk, open_read}
use yuclase.Storage.Segment.{segment_name}
use yuclase.Storage.Log.Segments.Rotation.{HasSegment}
use yuclase.Storage.Log.Messages.{header_bytes, read_full, full_or_short, read_at}
use yuclase.Storage.Log.Messages.Appending.{message_bytes, length-header_bytes}

-- The two fields of a header read back.
header_timestamp :
    (t : ℤ) (p : List ℕ) → IsInt64 t → signed64 (read_uint 0 (take 8 (header_bytes t p))) ≡ t
unfolding header_bytes put_uint
header_timestamp t p h =
    ap signed64 (read_uint-put_uint_64 (pattern64 t) (pattern64_lt t h)) ∙ signed64-pattern64 t h

pub header_size :
    (t : ℤ) (p : List ℕ) → length p < 2 ^ 32 → read_uint 0 (drop 8 (header_bytes t p)) ≡ length p
unfolding header_bytes put_uint
header_size t p h =
    ap (read_uint 0) (ap (put_uint 4) (mod-eq_of_lt h)) ∙ read_uint-put_uint_32 (length p) h

full_lem :
    (b : ℕ) (bs after : List ℕ) → full_or_short (suc (length bs)) (b ∷ (bs ++ after)) ≡ ok (b ∷ bs)
unfolding full_or_short
full_lem b bs after =
    rw (not_short (length bs) (length (bs ++ after)) (omega (arith, length-append bs after)))
      (ap (λ t. ok (b ∷ t)) (take-append bs after))
  where
    not_short : (m n : ℕ) → m ≤ n → ltb (suc n) (suc m) ≡ false
    not_short m n e = ground arith

module _ {i k : ℕ} {c : List ℕ} {d : Disk} (h : HasSegment i k c d) where
  pub open_read_lem : open_read (segment_name (pos k)) d ≡ (ok i, d)
  unfolding open_read
  open_read_lem = rw (h.healthy open_call) (rw h.linked)

  -- The bytes `q` stand after `before` in the file.
  read_full_lem :
      (before q after : List ℕ)
      → c ≡ before ++ (q ++ after)
      → read_full i (length before) (length q) d ≡ (ok q, d)
  unfolding read_full
  read_full_lem before [] after e = refl
  read_full_lem before (b ∷ bs) after e =
      let rest : drop (length before) (d.content i) ≡ b ∷ (bs ++ after) =
        ap (drop (length before)) (h.content ∙ e) ∙ drop-append before (b ∷ (bs ++ after)) in
      rw (lt→ltb 0 (suc (length bs)) (omega arith), h.healthy read_call)
        (ap₂ (λ x y. (x, y)) (ap (full_or_short (suc (length bs))) rest ∙ full_lem b bs after) refl)

  -- At the end of the file there is no byte of a header.
  pub read_full_at_end : read_full i (length c) 12 d ≡ (err eof, d)
  unfolding read_full
  read_full_at_end =
      let rest : drop (length c) (d.content i) ≡ [] =
        ap (drop (length c)) (h.content ∙ sym (append-nil c)) ∙ drop-append c [] in
      rw (h.healthy read_call) (ap₂ (λ x y. (x, y)) (ap (full_or_short 12) rest) refl)

module _ {i k : ℕ} {c : List ℕ} {d : Disk} (h : HasSegment i k c d) where
  read_full_of :
      (before q after : List ℕ) (m n : ℕ)
      → c ≡ before ++ (q ++ after)
      → m ≡ length before
      → n ≡ length q
      → read_full i m n d ≡ (ok q, d)
  read_full_of before q after m n e em en =
      ap₂ (λ x y. read_full i x y d) em en ∙ read_full_lem h before q after e

module _ {i k : ℕ} {c : List ℕ} {d : Disk} (h : HasSegment i k c d) where
  -- A message stands after `before` in the segment.
  pub read_at_lem :
      (before : List ℕ) (t : ℤ) (p after : List ℕ) (o : ℤ)
      → c ≡ before ++ (message_bytes t p ++ after)
      → IsInt64 t
      → length p < 2 ^ 32
      → read_at (pos k) (length before) o d
        ≡ (ok (record { timestamp = t; payload = p; offset = o }), d)
  unfolding read_at
  read_at_lem before t p after o e ht hp =
      let header = header_bytes t p in
      let e' : c ≡ before ++ (header ++ (p ++ after)) =
        e ∙ ap (λ x. before ++ x) (append_assoc header p after) in
      let e'' : c ≡ (before ++ header) ++ (p ++ after) =
        e' ∙ sym (append_assoc before header (p ++ after)) in
      rw (open_read_lem h) (
        rw (h.healthy seek_call) (
          rw
            (read_full_of h before header (p ++ after) (length before) 12 e' refl
              (sym (length-header_bytes t p)))
            (rw (header_timestamp t p ht) (
              rw (
                read_full_of h (before ++ header) p after (length before + 12)
                  (read_uint 0 (drop 8 header)) e''
                  (sym (
                    length-append before header
                    ∙ ap (λ n. length before + n) (length-header_bytes t p)))
                  (header_size t p hp))))))
