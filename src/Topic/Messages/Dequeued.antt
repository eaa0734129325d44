-- ===== src/Topic/Messages/Dequeued.antt =====
-- What `Dequeue` of pkg/queue/topic.go delivers, and to whom.
use yuclase.Base.{
  ℕ, zero, suc, ◌+◌, ◌*◌, ◌^◌, ◌<◌, ◌≤◌, ◌≡◌, refl, sym, ap, ◌∙◌, true, false, some, List, [], ◌∷◌,
  ◌++◌, length, length-append, take, take_of_length-le, get_last?, arith, if◌then◌else◌, ltb,
  Bool-cases, inl, inr, bytes_eq, bytes_eq_refl, append-nil,
}
use mathlib.Core.Path.{subst}
use yuclase.Base.Int64.{ℤ, pos, add64, add64_pos}
use yuclase.Base.Exec.{Result, ok, pure, ◌>>◌}
use yuclase.Base.Assoc.{insert, lookup}
use yuclase.Storage.Disk.{On}
use yuclase.Storage.Document.{ConsumerOffset}
use yuclase.Storage.Log.Writer.{LogEntry}
use yuclase.Storage.Log.Writer.Writing.{side_files}
use yuclase.Storage.Log.Messages.{read_from, message_size}
use yuclase.Storage.Log.Messages.Appending.{length-message_bytes, message_bytes}
use yuclase.Storage.Log.Messages.Sequence.{
  Message, log_bytes, log_bytes-append, entries_at, AreMessages, read_from-messages,
}
use yuclase.Storage.Catalog.Consumers.{Catalog, get_offset, updated}
use yuclase.Storage.Catalog.Consumers.Offsets.{moved, update_offset_lem, get_offset-moved}
use yuclase.Topic.State.{Topic, unlock, touch}
use yuclase.Topic.State.Locks.{acquired, method_lem}
use yuclase.Topic.Messages.{dequeue, dequeue_body, read_from_offset, limited, advance}
use yuclase.Topic.Messages.Delivery.{Holds, HasRead}

take-entries_at :
    (n o : ℕ) (ms : List Message) → take n (entries_at o ms) ≡ entries_at o (take n ms)
unfolding entries_at
take-entries_at zero o ms = refl
take-entries_at (suc n) o [] = refl
take-entries_at (suc n) o (m ∷ ms) =
    ap (λ es. record { timestamp = m.timestamp; payload = m.payload; offset = pos o } ∷ es)
      (take-entries_at n (o + (12 + length m.payload)) ms)

limited_lem : (n : ℕ) (es : List LogEntry) → limited (pos n) es ≡ ok (take n es)
unfolding limited
limited_lem n es = elim (Bool-cases (ltb n (length es))) [
  | inl more ↦ rw more
  | inr all ↦ rw (all, take_of_length-le n es (ground arith))
]

pub length-log_bytes_cons :
    (m : Message) (ms : List Message)
    → length (log_bytes (m ∷ ms)) ≡ 12 + length m.payload + length (log_bytes ms)
unfolding log_bytes
length-log_bytes_cons m ms =
    length-append (message_bytes m.timestamp m.payload) (log_bytes ms)
    ∙ ap (λ n. n + length (log_bytes ms)) (length-message_bytes m.timestamp m.payload)

pub length-log_bytes_nil : length (log_bytes []) ≡ 0
unfolding log_bytes
length-log_bytes_nil = refl

pub length-log_bytes-append :
    (ms ns : List Message)
    → length (log_bytes (ms ++ ns)) ≡ length (log_bytes ms) + length (log_bytes ns)
length-log_bytes-append ms ns =
    ap length (log_bytes-append ms ns) ∙ length-append (log_bytes ms) (log_bytes ns)

-- The offset behind the last entry is where the messages end.
last_entry_end :
    (o : ℕ) (m : Message) (ms : List Message)
    → o + length (log_bytes (m ∷ ms)) < 2 ^ 63
    → (e : LogEntry) × (get_last? (entries_at o (m ∷ ms)) ≡ some e)
      × (add64 e.offset (message_size e.payload) ≡ pos (o + length (log_bytes (m ∷ ms))))
unfolding entries_at
last_entry_end o m [] fits =
    let end : 12 + length m.payload ≡ length (log_bytes (m ∷ [])) =
      omega (arith, length-log_bytes_cons m [], length-log_bytes_nil) in
    (
      record { timestamp = m.timestamp; payload = m.payload; offset = pos o },
      refl,
      add64_pos o (12 + length m.payload) (omega (arith, end)) ∙ ap (λ n. pos (o + n)) end,
    )
last_entry_end o m (m' ∷ ms) fits =
    let size = length-log_bytes_cons m (m' ∷ ms) in
    let (e, last, next) =
      last_entry_end (o + (12 + length m.payload)) m' ms (omega (arith, size)) in
    (e, last, next ∙ ap pos (omega (arith, size)))

-- The rest of `Dequeue` once the entries `es` are read, and its unlock.
abbrev deliver : List ℕ → List LogEntry → On Topic → Result (List LogEntry) × On Topic
deliver id es s = unlock ((advance id (get_last? es) >> (touch >> pure es)) (acquired s))

dequeue_lem :
    (id : List ℕ) (max : ℤ) (es : List LogEntry) (s : On Topic)
    → s.self.held ≡ false
    → s.self.closed ≡ false
    → (read_from_offset (get_offset id s.self.catalog) max s.disk).0 ≡ ok es
    → dequeue id max s ≡ deliver id es s
unfolding dequeue
dequeue_lem id max es s held is_open read' =
    method_lem (dequeue_body id max) s held is_open ∙ ap unlock body
  where
    body :
        dequeue_body id max (acquired s)
        ≡ (advance id (get_last? es) >> (touch >> pure es)) (acquired s)
    body = unfold dequeue_body in rw read'

-- The outcome of a `Dequeue` by `id`, which had `seen`, of the messages `batch`.
pub record Delivers (i : ℕ) (ms : List Message) (id : List ℕ) (seen batch : List Message)
    (s : On Topic) (r : Result (List LogEntry) × On Topic) : Type 0 where
  pub returned : r.0 ≡ ok (entries_at (length (log_bytes seen)) batch)
  pub holds : Holds i ms r.1
  pub moves : HasRead id (seen ++ batch) r.1
  pub now : r.1.disk.now ≡ s.disk.now
  pub side : side_files r.1.disk ≡ side_files s.disk
  pub others :
      (j : List ℕ)
      → bytes_eq id j ≡ false
      → get_offset j r.1.self.catalog ≡ get_offset j s.self.catalog

-- The topic once `id` is at offset `k`, where the consumers were `cs`.
abbrev advanced : List ℕ → ℤ → List (List ℕ × ConsumerOffset) → On Topic → On Topic
advanced id k cs s = record {
  self = record s.self {
    held = false;
    catalog = (moved id k cs (record { self = s.self.catalog; disk = s.disk })).self;
    last_used = s.disk.now;
  };
  disk = s.disk;
}

module _ (id : List ℕ) (s : On Topic) (es : List LogEntry) (e : LogEntry) (k : ℤ) where
  deliver_lem :
      (cs : List (List ℕ × ConsumerOffset))
      → s.self.catalog.consumers ≡ some cs
      → get_last? es ≡ some e
      → add64 e.offset (message_size e.payload) ≡ k
      → deliver id es s ≡ (ok es, advanced id k cs s)
  unfolding advance
  deliver_lem cs stored last next =
      let c : On Catalog = record { self = s.self.catalog; disk = s.disk } in
      rw (last) (rw (next) (rw (update_offset_lem id k c cs stored) refl))

module _ {i : ℕ} {ms : List Message} (id : List ℕ) (seen : List Message) (s : On Topic) where
  advanced-Delivers :
      (batch : List Message)
      → (h : Holds i ms s)
      → Delivers i ms id seen batch s (
        ok (entries_at (length (log_bytes seen)) batch),
        advanced id (pos (length (log_bytes (seen ++ batch)))) h.consumers s,
      )
  unfolding get_offset
  advanced-Delivers batch h =
      let k = pos (length (log_bytes (seen ++ batch))) in
      let c : On Catalog = record { self = s.self.catalog; disk = s.disk } in
      record {
        returned = refl;
        holds = record {
          held = refl;
          is_open = h.is_open;
          log = h.log;
          messages = h.messages;
          clock = h.clock;
          interval_pred = h.interval_pred;
          interval = h.interval;
          consumers = insert id (updated id k s.disk.now (lookup id h.consumers)) h.consumers;
          stored = refl;
          saved = record { index = h.saved.index; catalog = λ clean. absurd (ground arith) };
        };
        now = refl;
        side = refl;
        moves = get_offset-moved id k c h.consumers id ∙ rw (bytes_eq_refl id) refl;
        others = λ j other.
            get_offset-moved id k c h.consumers j
            ∙ ap
                (λ b.
                  if b
                  then k
                  else get_offset j (record { consumers = some h.consumers; dirty = true }))
                other
            ∙ ap (λ m. get_offset j (record { consumers = m; dirty = true })) (sym h.stored);
      }

  unread-Delivers : Holds i ms s → HasRead id seen s → Delivers i ms id seen [] s (deliver id [] s)
  unfolding advance entries_at
  unread-Delivers h r = record {
    returned = refl;
    holds = record {
      held = refl;
      is_open = h.is_open;
      log = h.log;
      messages = h.messages;
      clock = h.clock;
      interval_pred = h.interval_pred;
      interval = h.interval;
      consumers = h.consumers;
      stored = h.stored;
      saved = record { index = h.saved.index; catalog = h.saved.catalog };
    };
    now = refl;
    side = refl;
    moves = r ∙ ap (λ t. pos (length (log_bytes t))) (sym (append-nil seen));
    others = λ j n. refl;
  }

  deliver-Delivers :
      (batch : List Message)
      → Holds i ms s
      → HasRead id seen s
      → length (log_bytes seen) + length (log_bytes batch) < 2 ^ 63
      → Delivers i ms id seen batch s (deliver id (entries_at (length (log_bytes seen)) batch) s)
  deliver-Delivers [] h r fits = unfold entries_at in unread-Delivers h r
  deliver-Delivers (m ∷ batch) h r fits =
      let o = length (log_bytes seen) in
      let es = entries_at o (m ∷ batch) in
      let (e, last, next) = last_entry_end o m batch fits in
      let end : o + length (log_bytes (m ∷ batch)) ≡ length (log_bytes (seen ++ m ∷ batch)) =
        sym (length-log_bytes-append seen (m ∷ batch)) in
      subst (Delivers i ms id seen (m ∷ batch) s)
        (sym (deliver_lem id s es e _ h.consumers h.stored last (next ∙ ap pos end)))
        (advanced-Delivers (m ∷ batch) h)

AreMessages-later : (seen rest : List Message) → AreMessages (seen ++ rest) → AreMessages rest
AreMessages-later [] rest h = h
AreMessages-later (m ∷ seen) rest h = AreMessages-later seen rest h.2

length-log_bytes-take :
    (n : ℕ) (ms : List Message) → length (log_bytes (take n ms)) ≤ length (log_bytes ms)
length-log_bytes-take zero ms = omega (arith, length-log_bytes_nil)
length-log_bytes-take (suc n) [] = omega arith
length-log_bytes-take (suc n) (m ∷ ms) = omega (
  arith,
  length-log_bytes_cons m ms,
  length-log_bytes_cons m (take n ms),
  length-log_bytes-take n ms,
)

module _ {i : ℕ} (id : List ℕ) (seen rest : List Message) (n : ℕ) (s : On Topic) where
  -- When `id` has had the messages `seen` and the topic holds `rest` behind them, in a segment
  -- below 2 ^ 32 bytes on an unfailing disk, `Dequeue` of at most `n` returns the first `n` of
  -- `rest` in order (all of them when there are fewer), leaves the messages as they are, moves `id`
  -- behind what it returned and leaves the offset of every other consumer.
  pub dequeue-Delivers :
      Holds i (seen ++ rest) s
      → HasRead id seen s
      → length (log_bytes (seen ++ rest)) < 2 ^ 32
      → Delivers i (seen ++ rest) id seen (take n rest) s (dequeue id (pos n) s)
  dequeue-Delivers h r fits =
      let o = length (log_bytes seen) in
      let batch = take n rest in
      let total = length-log_bytes-append seen rest in
      let entries =
        read_from-messages h.log.on_disk (log_bytes seen) rest (log_bytes-append seen rest)
          (AreMessages-later seen rest h.messages) fits (omega arith) in
      let start : 0 * 2 ^ 32 + o ≡ o = omega arith in
      let entries' : read_from (get_offset id s.self.catalog) s.disk ≡ ok (entries_at o rest) =
        ap (λ k. read_from k s.disk) (r ∙ ap pos (sym start))
        ∙ entries
        ∙ ap (λ k. ok (entries_at k rest)) start in
      let read' : (read_from_offset (get_offset id s.self.catalog) (pos n) s.disk).0
          ≡ ok (entries_at o batch) =
        unfold read_from_offset in
        rw (entries') (limited_lem n (entries_at o rest) ∙ ap ok (take-entries_at n o rest)) in
      subst (Delivers i (seen ++ rest) id seen batch s)
        (sym (dequeue_lem id (pos n) (entries_at o batch) s h.held h.is_open read'))
        (deliver-Delivers id seen s batch h r (omega (arith, length-log_bytes-take n rest)))
