-- ===== src/Topic/Tests.antt =====
-- The theorems on pkg/queue/topic.go at concrete inputs.
use yuclase.Base.{true, [], ◌∷◌, arith, take}
use yuclase.Base.Int64.{pos}
use yuclase.Base.Bytes.{codes}
use yuclase.Storage.Disk.{On}
use yuclase.Storage.Samples.{segment_disk, open_log}
use yuclase.Storage.Log.Messages.{header_bytes}
use yuclase.Storage.Log.Messages.Sequence.{log_bytes}
use yuclase.Topic.State.{Topic}
use yuclase.Topic.Samples.{topic, topic-Holds, filled_topic, first_message, filling, nothing_read}
use yuclase.Base.{◌^◌}
use yuclase.Storage.Log.Messages.Appending.{message_bytes}
use yuclase.Topic.Upkeep.Orphans.{Orphans}
use yuclase.Topic.Messages.{enqueue, dequeue}
use yuclase.Topic.Messages.Delivery.{Enqueues, enqueue-Holds}
use yuclase.Topic.Messages.Dequeued.{Delivers, dequeue-Delivers}

abbrev shut_topic : On Topic
shut_topic = record { self = record topic.self { closed = true }; disk = segment_disk }

enqueue_example : Enqueues 0 [] (codes "hi") topic (enqueue (codes "hi") topic)
unfolding log_bytes
enqueue_example = enqueue-Holds (codes "hi") topic topic-Holds (omega arith)

dequeue_example :
    Delivers 0
      (first_message ∷ [])
      (codes "c")
      []
      (take 5 (first_message ∷ []))
      filled_topic
      (dequeue (codes "c") (pos 5) filled_topic)
unfolding log_bytes header_bytes
dequeue_example =
    dequeue-Delivers (codes "c") [] (first_message ∷ []) 5 filled_topic filling.holds nothing_read
      (omega arith)

-- A topic with one message of 14 bytes, long after it was written.
abbrev old_topic : On Topic
old_topic = record {
  self = record topic.self { log = record open_log { current_size = pos 14 } };
  disk = record segment_disk {
    content = λ i. message_bytes (pos 5) (codes "hi");
    now = pos (10 ^ 15);
  };
}
