-- ===== src/Storage/Index/Rebuild/Rounds.antt =====
-- The rounds of `scanSegment` of pkg/storage/index.go over messages.
use yuclase.Base.{
  ℕ, zero, suc, ◌+◌, ◌*◌, ◌%◌, ◌^◌, ◌<◌, Bool, false, List, [], ◌∷◌, ◌++◌, length, length-append,
  take, drop, drop-append, ltb, if◌then◌else◌, ◌≡◌, refl, ap, ◌∙◌, arith,
}
use native.Mathlib.Nat.{mod-eq_of_lt}
use yuclase.Base.Int64.{pos, add64, add64_pos, shl32, or64, or64-shl32}
use yuclase.Base.Bytes.{read_uint}
use yuclase.Storage.Log.Messages.{header_bytes}
use yuclase.Storage.Log.Messages.Appending.{message_bytes, length-message_bytes}
use yuclase.Storage.Log.Messages.Reading.{header_size}
use yuclase.Storage.Log.Messages.Sequence.{Message, log_bytes, AreMessages}
use yuclase.Storage.Index.Entries.{IndexEntry}
use yuclase.Storage.Index.Rebuild.{scan_loop}

-- The entries of the messages of segment `k` that begin at `o`.
unfoldable pub offsets_at : ℕ → ℕ → List Message → List IndexEntry
offsets_at k o [] = []
offsets_at k o (m ∷ ms) =
    record { offset = pos (k * 2 ^ 32 + o); position = pos o }
    ∷ offsets_at k (o + (12 + length m.payload)) ms

-- The entries of segments with the indices from `k` on.
unfoldable pub entries_from : ℕ → List (List Message) → List IndexEntry
unfolding offsets_at
entries_from k [] = []
entries_from k (ms ∷ mss) = offsets_at k 0 ms ++ entries_from (k + 1) mss

module _ (m : Message) (rest : List ℕ) (fits : length m.payload < 2 ^ 32) where
  abbrev bytes : List ℕ
  bytes = message_bytes m.timestamp m.payload ++ rest

  header_lem : read_uint 0 (drop 8 (take 12 bytes)) ≡ length m.payload
  unfolding header_bytes
  header_lem = header_size m.timestamp m.payload fits

  behind_lem : drop (length m.payload) (drop 12 bytes) ≡ rest
  unfolding header_bytes
  behind_lem = drop-append m.payload rest

  length_lem : length bytes ≡ 12 + length m.payload + length rest
  length_lem = omega (
    arith,
    length-append (message_bytes m.timestamp m.payload) rest,
    length-message_bytes m.timestamp m.payload,
  )

enough : (n k : ℕ) → ltb (12 + n + k) 12 ≡ false
enough n k = ground arith

-- One round of the scan, by the size that the header holds.
abbrev round : ℕ → ℕ → List ℕ → ℕ → ℕ → Bool → List IndexEntry
round fuel k bytes o size short =
    let rest =
      scan_loop fuel (pos k) (drop size (drop 12 bytes))
        (add64 (pos o) (pos ((12 + size) % 2 ^ 32))) in
    if short then [] else record { offset = or64 (shl32 (pos k)) (pos o); position = pos o } ∷ rest

pub scan_loop_lem :
    (fuel k o : ℕ) (ms : List Message)
    → AreMessages ms
    → k < 2 ^ 31
    → o + length (log_bytes ms) < 2 ^ 32
    → length (log_bytes ms) < fuel
    → scan_loop fuel (pos k) (log_bytes ms) (pos o) ≡ offsets_at k o ms
unfolding scan_loop log_bytes offsets_at
scan_loop_lem zero k o ms h hk ho hf = absurd (omega arith)
scan_loop_lem (suc fuel) k o [] h hk ho hf = refl
scan_loop_lem (suc fuel) k o (m ∷ ms) h hk ho hf =
    let rest = log_bytes ms in
    let all = message_bytes m.timestamp m.payload ++ rest in
    let size = length m.payload in
    let len = length_lem m rest h.1 in
    let next = o + (12 + size) in
    let step : add64 (pos o) (pos ((12 + size) % 2 ^ 32)) ≡ pos next =
      ap (λ n. add64 (pos o) (pos n)) (mod-eq_of_lt (omega (arith, len)))
      ∙ add64_pos o (12 + size) (omega (arith, len)) in
    ap (λ n. round fuel k all o n (ltb (length all) 12)) (header_lem m rest h.1)
    ∙ ap (round fuel k all o size) (ap (λ n. ltb n 12) len ∙ enough size (length rest))
    ∙ ap
        (λ p.
          record { offset = p; position = pos o }
          ∷ scan_loop fuel (pos k) (drop size (drop 12 all))
              (add64 (pos o) (pos ((12 + size) % 2 ^ 32))))
        (or64-shl32 k o hk (omega (arith, len)))
    ∙ ap
        (λ b.
          record { offset = pos (k * 2 ^ 32 + o); position = pos o }
          ∷ scan_loop fuel (pos k) b (add64 (pos o) (pos ((12 + size) % 2 ^ 32))))
        (behind_lem m rest h.1)
    ∙ ap
        (λ p.
          record { offset = pos (k * 2 ^ 32 + o); position = pos o }
          ∷ scan_loop fuel (pos k) rest p)
        step
    ∙ ap (λ es. record { offset = pos (k * 2 ^ 32 + o); position = pos o } ∷ es)
        (scan_loop_lem fuel k next ms h.2 hk (omega (arith, len)) (omega (arith, len)))
