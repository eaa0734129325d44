-- ===== src/Topic/Messages/Delivery.antt =====
-- What `Enqueue` and `Dequeue` of pkg/queue/topic.go do to the messages and to the consumers.
use yuclase.Base.{
  ℕ, suc, ◌+◌, ◌^◌, ◌%◌, ◌<◌, ◌≡◌, refl, sym, ap, ◌∙◌, Bool, true, false, some, List, [], ◌∷◌, ◌++◌,
  length, arith, append-nil, ◌==◌,
}
use mathlib.Core.Path.{subst}
use yuclase.Base.Int64.{IsInt64, ℤ, pos}
use yuclase.Base.Exec.{Result, ok, when, pure, ◌>>◌}
use yuclase.Storage.Disk.{On}
use yuclase.Storage.Log.Writer.{Log}
use yuclase.Storage.Log.Messages.{append}
use yuclase.Storage.Log.Messages.Appending.{append-Appends, message_bytes}
use yuclase.Storage.Log.Messages.Sequence.{Message, log_bytes, log_bytes-append, AreMessages}
use yuclase.Storage.Log.Segments.Rotation.{IsOpen}
use yuclase.Storage.Log.Offsets.{get_global_offset_pos}
use yuclase.Storage.Document.{ConsumerOffset}
use yuclase.Storage.Catalog.Consumers.{get_offset}
use yuclase.Storage.Index.Entries.{Index, add_entry, add_to}
use yuclase.Topic.State.{Topic, unlock, on_index, touch}
use yuclase.Storage.Log.Writer.Writing.{side_files}
use yuclase.Storage.Index.File.Reopening.{add_to-AreEntries}
use yuclase.Storage.Catalog.File.{loaded}
use yuclase.Topic.State.Saved.{IsSaved}
use yuclase.Topic.State.Locks.{acquired, method_lem}
use yuclase.Topic.Messages.{enqueue, enqueue_body, should_index}

abbrev pub log_of : On Topic → On Log
log_of s = record { self = s.self.log; disk = s.disk }

-- The index after an `Enqueue` at `offset`.
unfoldable pub filed : Bool → ℤ → Index → Index
filed true offset i = record i {
  entries = add_to (record { offset = offset; position = offset }) i.entries;
  dirty = true;
}
filed false offset i = i

-- The topic after an `Enqueue` that left the log in state `t`.
abbrev pub enqueued : Bool → ℤ → On Log → On Topic → On Topic
enqueued indexed offset t s = record {
  self = record s.self {
    held = false;
    log = t.self;
    index = filed indexed offset s.self.index;
    last_used = t.disk.now;
  };
  disk = t.disk;
}

-- The end of `Enqueue`, once the log is written.
filing_lem :
    (o : ℤ) (indexed : Bool) (t : On Log) (s : On Topic)
    → ((when indexed (on_index (add_entry o o))) >> (touch >> pure o))
        (record { self = record s.self { held = true; log = t.self }; disk = t.disk })
      ≡ (ok o, acquired (enqueued indexed o t s))
unfolding add_entry filed
filing_lem o true t s = refl
filing_lem o false t s = refl

module _ (p : List ℕ) (s : On Topic) (o : ℤ) (indexed : Bool) where
  body_lem :
      (append p (log_of s)).0 ≡ ok o
      → should_index s.self.config.storage.index_interval o ≡ ok indexed
      → enqueue_body p (acquired s)
        ≡ (ok o, acquired (enqueued indexed o (append p (log_of s)).1 s))
  unfolding enqueue_body
  body_lem stored ask = rw (stored) (rw ask (filing_lem o indexed (append p (log_of s)).1 s))

module _ (p : List ℕ) (s : On Topic) (o : ℤ) (indexed : Bool) where
  enqueue_lem :
      s.self.held ≡ false
      → s.self.closed ≡ false
      → (append p (log_of s)).0 ≡ ok o
      → should_index s.self.config.storage.index_interval o ≡ ok indexed
      → enqueue p s ≡ (ok o, enqueued indexed o (append p (log_of s)).1 s)
  unfolding enqueue filed
  enqueue_lem held open' stored ask =
      method_lem (enqueue_body p) s held open' ∙ ap unlock (body_lem p s o indexed stored ask)

-- A message that is indexed makes the index dirty.
enqueued-IsSaved :
    (indexed : Bool) (n : ℕ) (t : On Log) (s : On Topic)
    → n < 2 ^ 63
    → side_files t.disk ≡ side_files s.disk
    → IsSaved s
    → IsSaved (enqueued indexed (pos n) t s)
unfolding filed
enqueued-IsSaved true n t s small side h = record {
  index = record {
    entries =
        add_to-AreEntries (record { offset = pos n; position = pos n }) small small
          s.self.index.entries h.index.entries;
    file_open = h.index.file_open;
    same = λ clean. absurd (ground arith);
  };
  catalog = λ clean. ap (λ p. loaded p.1) side ∙ h.catalog clean;
}
enqueued-IsSaved false n t s small side h = record {
  index = record {
    entries = h.index.entries;
    file_open = h.index.file_open;
    same = λ clean. ap (λ p. p.0) side ∙ h.index.same clean;
  };
  catalog = λ clean. ap (λ p. loaded p.1) side ∙ h.catalog clean;
}

-- A topic whose only segment holds the messages `ms` at inode `i`.
pub record Holds (i : ℕ) (ms : List Message) (s : On Topic) : Type 0 where
  pub held : s.self.held ≡ false
  pub is_open : s.self.closed ≡ false
  pub log : IsOpen i 0 (log_bytes ms) (log_of s)
  pub messages : AreMessages ms
  pub clock : IsInt64 s.disk.now
  pub interval_pred : ℕ
  pub interval : s.self.config.storage.index_interval ≡ pos (suc interval_pred)
  pub consumers : List (List ℕ × ConsumerOffset)
  pub stored : s.self.catalog.consumers ≡ some consumers
  pub saved : IsSaved s

-- Consumer `id` has had the messages `seen`: its offset is where they end.
abbrev pub HasRead : List ℕ → List Message → On Topic → Type 0
HasRead id seen s = get_offset id s.self.catalog ≡ pos (length (log_bytes seen))

-- The message that an `Enqueue` of `p` at `s` writes.
abbrev pub new_message : List ℕ → On Topic → Message
new_message p s = record { timestamp = s.disk.now; payload = p }

-- Whether the message at `n` is indexed.
asks : {z : ℤ} {d : ℕ} → z ≡ pos (suc d) → (n : ℕ) → should_index z (pos n) ≡ ok (n % suc d == 0)
unfolding should_index
asks e n = rw e

AreMessages-append :
    (ms : List Message) (m : Message)
    → AreMessages ms
    → AreMessages (m ∷ [])
    → AreMessages (ms ++ m ∷ [])
AreMessages-append [] m h g = g
AreMessages-append (x ∷ ms) m h g = (h.0, h.1, AreMessages-append ms m h.2 g)

-- The outcome of an `Enqueue`.
pub record Enqueues (i : ℕ) (ms : List Message) (p : List ℕ) (s : On Topic)
    (r : Result ℤ × On Topic) : Type 0 where
  pub returned : r.0 ≡ ok (pos (length (log_bytes ms)))
  pub holds : Holds i (ms ++ new_message p s ∷ []) r.1
  pub same_catalog : r.1.self.catalog ≡ s.self.catalog
  pub now : r.1.disk.now ≡ s.disk.now
  pub side : side_files r.1.disk ≡ side_files s.disk

module _ {i : ℕ} {ms : List Message} (p : List ℕ) (s : On Topic) where
  -- On a topic that holds `ms`, is open and has an unfailing disk, with room below 2 ^ 32 bytes,
  -- `Enqueue` returns the offset at which the messages ended and leaves a topic that holds `ms` and
  -- behind them the new message, with its payload and the time, with the consumers as they were.
  pub enqueue-Holds :
      Holds i ms s
      → length (log_bytes ms) + (12 + length p) < 2 ^ 32
      → Enqueues i ms p s (enqueue p s)
  unfolding log_bytes
  enqueue-Holds h fits =
      let n = length (log_bytes ms) in
      let m = new_message p s in
      let (stored, opened, kept) = append-Appends p (log_of s) h.log (omega arith) in
      let offset : (append p (log_of s)).0 ≡ ok (pos n) =
        stored
        ∙ ap ok (get_global_offset_pos 0 n (omega arith) (omega arith) ∙ ap pos (omega arith)) in
      let indexed = n % suc h.interval_pred == 0 in
      let grown : log_bytes ms ++ message_bytes s.disk.now p ≡ log_bytes (ms ++ m ∷ []) =
        ap (λ b. log_bytes ms ++ b) (sym (append-nil (message_bytes s.disk.now p)))
        ∙ sym (log_bytes-append ms (m ∷ [])) in
      subst (Enqueues i ms p s)
        (sym (enqueue_lem p s (pos n) indexed h.held h.is_open offset (asks h.interval n)))
        (record {
          returned = refl;
          holds = record {
            held = refl;
            is_open = h.is_open;
            log = subst (λ b. IsOpen i 0 b (append p (log_of s)).1) grown opened;
            messages = AreMessages-append ms m h.messages (h.clock, omega arith, tt);
            clock = subst IsInt64 (sym kept.now) h.clock;
            interval_pred = h.interval_pred;
            interval = h.interval;
            consumers = h.consumers;
            stored = h.stored;
            saved =
                enqueued-IsSaved indexed n (append p (log_of s)).1 s (omega arith) kept.side
                  h.saved;
          };
          same_catalog = refl;
          now = kept.now;
          side = kept.side;
        })
