-- ===== src/Queue/Topics/Isolation.antt =====
-- The methods of pkg/queue/queue.go on one topic leave the other topics alone.
use yuclase.Base.{ℕ, ◌≡◌, false, List, bytes_eq}
use yuclase.Base.Int64.{ℤ}
use yuclase.Base.Assoc.{lookup}
use yuclase.Storage.Disk.{Disk}
use yuclase.Topic.State.{Topic}
use yuclase.Topic.Messages.{
  enqueue as topic_enqueue, dequeue as topic_dequeue,
  update_consumer_offset as topic_update_consumer_offset,
  get_consumer_offset as topic_get_consumer_offset,
}
use yuclase.Queue.State.{Host}
use yuclase.Queue.Topics.{
  enqueue, dequeue_with_limit, update_consumer_offset, get_consumer_offset, create_topic,
  delete_topic, get_topic_stats, list_consumers,
}

-- The topics other than `name` are what they were.
abbrev pub KeepsOthers : List ℕ → Host → Host → Type 0
KeepsOthers name s t =
    (j : List ℕ) → bytes_eq name j ≡ false → lookup j t.self.topics ≡ lookup j s.self.topics

-- The methods that name a topic.
pub data Call : Type 0 where
  puts : List ℕ → Call
  takes : List ℕ → ℤ → Call
  moves : List ℕ → ℤ → Call
  asks : List ℕ → Call
  creates deletes counts lists : Call

-- The queue behind a call.
abbrev pub behind : List ℕ → Call → Host → Host
behind name (puts payload) s = (enqueue name payload s).1
behind name (takes id n) s = (dequeue_with_limit name id n s).1
behind name (moves id o) s = (update_consumer_offset name id o s).1
behind name (asks id) s = (get_consumer_offset name id s).1
behind name creates s = (create_topic name s).1
behind name deletes s = (delete_topic name s).1
behind name counts s = (get_topic_stats name s).1
behind name lists s = (list_consumers name s).1
