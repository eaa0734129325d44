-- ===== src/Topic/Open/Lifetime.antt =====
-- `Close` and `Delete` of pkg/queue/topic.go, and what the other methods do afterwards.
use yuclase.Base.{ℕ, Bool, List, ◌≡◌, if◌then◌else◌}
use yuclase.Base.Int64.{ℤ}
use yuclase.Base.Exec.{Result, ok, err, deadlock, pure, ◌>>◌}
use yuclase.Storage.Disk.{On, on_disk}
use yuclase.Topic.State.{Topic, TopicM, closed_error, get_stats}
use yuclase.Topic.Open.{close, delete, remove_all, ignoring}
use yuclase.Topic.Messages.{enqueue, dequeue, update_consumer_offset, get_consumer_offset}
use yuclase.Topic.Upkeep.{sync, cleanup_old_messages}

-- No method of the topic returns: each waits for the lock.
pub record Blocks (s : On Topic) : Type 0 where
  pub no_enqueue : (p : List ℕ) → enqueue p s ≡ (deadlock, s)
  pub no_dequeue : (id : List ℕ) (n : ℤ) → dequeue id n s ≡ (deadlock, s)
  pub no_update : (id : List ℕ) (o : ℤ) → update_consumer_offset id o s ≡ (deadlock, s)
  pub no_offset : (id : List ℕ) → get_consumer_offset id s ≡ (deadlock, s)
  pub no_stats : get_stats s ≡ (deadlock, s)
  pub no_sync : sync s ≡ (deadlock, s)
  pub no_cleanup : cleanup_old_messages s ≡ (deadlock, s)
  pub no_close : close s ≡ (deadlock, s)
  pub no_delete : delete s ≡ (deadlock, s)

-- `Delete` under the lock, by whether the topic is closed.
abbrev delete_body : Bool → TopicM (Unit {0})
delete_body closed = (if closed then pure tt else ignoring close) >> on_disk remove_all

-- The outcome of a `Delete` that never returns: the files stay and the lock stays held.
pub record Hangs (s : On Topic) (r : Result (Unit {0}) × On Topic) : Type 0 where
  pub waits : r.0 ≡ deadlock
  pub same_disk : r.1.disk ≡ s.disk
  pub blocks : Blocks r.1

-- Every method that touches messages or consumers refuses, and nothing changes.
pub record Refuses (s : On Topic) : Type 0 where
  pub no_enqueue : (p : List ℕ) → enqueue p s ≡ (err (closed_error s.self.name), s)
  pub no_dequeue : (id : List ℕ) (n : ℤ) → dequeue id n s ≡ (err (closed_error s.self.name), s)
  pub no_update :
      (id : List ℕ) (o : ℤ) → update_consumer_offset id o s ≡ (err (closed_error s.self.name), s)
  pub no_sync : sync s ≡ (err (closed_error s.self.name), s)
  pub no_cleanup : cleanup_old_messages s ≡ (err (closed_error s.self.name), s)
  pub closes_again : close s ≡ (ok tt, s)

-- A closed topic as a locked method leaves it.
abbrev closed_result : On Topic → Bool → Result (Unit {0}) × On Topic
closed_result s b = (ok tt, record { self = record s.self { held = b }; disk = s.disk })
