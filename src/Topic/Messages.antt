-- ===== src/Topic/Messages.antt =====
-- pkg/queue/topic.go: `Enqueue`, `Dequeue` and the consumer offsets.
pub mod Delivery
pub mod Dequeued
use yuclase.Base.{
  ℕ, zero, suc, ◌+◌, ◌%◌, Bool, true, false, Option, none, some, List, [], ◌∷◌, ◌++◌, ◌==◌, length,
  take, get_last?, ltb, if◌then◌else◌,
}
use yuclase.Base.Int64.{ℤ, pos, negsuc, pos_part, neg_part, add64, ltb_ℤ}
use yuclase.Base.Bytes.{codes}
use yuclase.Base.Exec.{
  Result, ok, err, panic, Exec, pure, raise, lift, gets, wrapping, when, ◌>>=◌, ◌>>◌,
}
use yuclase.Storage.Disk.{Disk, On}
use yuclase.Storage.Log.Writer.{LogEntry}
use yuclase.Storage.Log.Messages.{append, read_from, message_size}
use yuclase.Storage.Index.Entries.{add_entry}
use yuclase.Storage.Catalog.Consumers.{get_offset, update_offset, list_consumers}
use yuclase.Topic.State.{
  Topic, TopicM, set_topic, locking, read_locking, on_log, on_index, on_catalog, when_open, touch,
}

abbrev pub magnitude : ℤ → ℕ
magnitude (pos n) = n
magnitude (negsuc n) = suc n

-- `shouldIndex`: a remainder by zero panics.
unfoldable pub should_index : ℤ → ℤ → Result Bool
should_index interval offset = elim (magnitude interval) [
  | zero ↦ panic
  | suc n ↦ ok (magnitude offset % suc n == 0)
]

-- `Enqueue` under the lock, on an open topic.
unfoldable pub enqueue_body : List ℕ → TopicM ℤ
enqueue_body payload = do
  offset ← wrapping (codes "failed to append to log") (on_log (append payload))
  indexed ← λ s. (should_index s.self.config.storage.index_interval offset, s)
  when indexed (on_index (add_entry offset offset))
  touch
  pure offset

-- `Enqueue`
unfoldable pub enqueue : List ℕ → TopicM ℤ
enqueue payload = locking (when_open (enqueue_body payload))

-- allEntries[:maxMessages]: a negative bound panics.
limited : ℤ → List LogEntry → Result (List LogEntry)
limited (pos n) es = if ltb n (length es) then ok (take n es) else ok es
limited (negsuc n) es = panic

-- `readFromOffset`
unfoldable pub read_from_offset : ℤ → ℤ → Disk → Result (List LogEntry) × Disk
unfolding limited
read_from_offset offset max_messages = do
  entries ← λ d. (read_from offset d, d)
  lift (limited max_messages entries)

-- The offset behind the last entry, if there is one.
advance : List ℕ → Option LogEntry → TopicM (Unit {0})
advance consumer_id none = pure tt
advance consumer_id (some e) =
    wrapping (codes "failed to update consumer offset")
      (on_catalog (update_offset consumer_id (add64 e.offset (message_size e.payload))))

-- `Dequeue` under the lock, on an open topic.
unfoldable pub dequeue_body : List ℕ → ℤ → TopicM (List LogEntry)
unfolding advance
dequeue_body consumer_id max_messages = do
  offset ← gets (λ s. get_offset consumer_id s.self.catalog)
  entries ←
      wrapping (codes "failed to read from log")
        (λ s. ((read_from_offset offset max_messages s.disk).0, s))
  advance consumer_id (get_last? entries)
  touch
  pure entries

-- `Dequeue`
unfoldable pub dequeue : List ℕ → ℤ → TopicM (List LogEntry)
dequeue consumer_id max_messages = locking (when_open (dequeue_body consumer_id max_messages))

-- `UpdateConsumerOffset`
unfoldable pub update_consumer_offset : List ℕ → ℤ → TopicM (Unit {0})
update_consumer_offset consumer_id offset =
    locking (when_open (on_catalog (update_offset consumer_id offset)))

-- `GetConsumerOffset`
unfoldable pub get_consumer_offset : List ℕ → TopicM ℤ
get_consumer_offset consumer_id = read_locking (gets (λ s. get_offset consumer_id s.self.catalog))

-- `ListConsumers`
unfoldable pub list_topic_consumers : TopicM (List (List ℕ))
list_topic_consumers = read_locking (gets (λ s. list_consumers s.self.catalog))
