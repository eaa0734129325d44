-- ===== src/Queue/Topics/Deletion.antt =====
-- `DeleteTopic` of pkg/queue/queue.go on a topic that is open.
use yuclase.Base.{ℕ, ◌≡◌, List}
use yuclase.Base.Int64.{ℤ}
use yuclase.Base.Exec.{Result, deadlock}
use yuclase.Topic.State.{Topic}
use yuclase.Queue.State.{writing, Host}
use yuclase.Queue.Topics.{
  enqueue, dequeue_with_limit, update_consumer_offset, get_consumer_offset, create_topic,
  delete_topic, list_topics, get_queue_stats,
}
use yuclase.Queue.Upkeep.{sync, close, reset}

-- No method of the queue returns: each waits for the lock.
pub record QueueBlocks (s : Host) : Type 0 where
  pub no_enqueue : (name p : List ℕ) → enqueue name p s ≡ (deadlock, s)
  pub no_dequeue : (name id : List ℕ) (n : ℤ) → dequeue_with_limit name id n s ≡ (deadlock, s)
  pub no_update : (name id : List ℕ) (o : ℤ) → update_consumer_offset name id o s ≡ (deadlock, s)
  pub no_offset : (name id : List ℕ) → get_consumer_offset name id s ≡ (deadlock, s)
  pub no_create : (name : List ℕ) → create_topic name s ≡ (deadlock, s)
  pub no_delete : (name : List ℕ) → delete_topic name s ≡ (deadlock, s)
  pub no_list : list_topics s ≡ (deadlock, s)
  pub no_stats : get_queue_stats s ≡ (deadlock, s)
  pub no_sync : sync s ≡ (deadlock, s)
  pub no_close : close s ≡ (deadlock, s)
  pub no_reset : reset s ≡ (deadlock, s)

-- The outcome of a `DeleteTopic` that never returns.
pub record QueueHangs (r : Result (Unit {0}) × Host) : Type 0 where
  pub waits : r.0 ≡ deadlock
  pub blocks : QueueBlocks r.1

-- A queue that holds the lock when a step never returns.
Stopped : Result (Unit {0}) × Host → Type 0
Stopped r = (r.0 ≡ deadlock) × (r.1.self.lock ≡ writing)
