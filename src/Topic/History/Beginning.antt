-- ===== src/Topic/History/Beginning.antt =====
-- The whole life of a topic of pkg/queue/topic.go, from `NewTopic` on.
use yuclase.Base.{ℕ, suc, ◌≡◌, refl, List, [], arith}
use yuclase.Base.Int64.{ℤ, pos, IsInt64}
use yuclase.Base.Assoc.{lookup}
use yuclase.Base.Exec.{ok}
use yuclase.Config.{Config}
use yuclase.Storage.Disk.{Disk, On}
use yuclase.Storage.Log.Messages.Sequence.{log_bytes}
use yuclase.Storage.Catalog.Consumers.{get_offset}
use yuclase.Topic.State.{Topic}
use yuclase.Topic.Open.{new_topic}
use yuclase.Topic.Open.Creation.{IsEmpty, made, made-Holds}
use yuclase.Topic.History.{Event, run, Feed, feed_run}
use yuclase.Topic.History.Simulation.{Agrees}

-- No message, and nobody has had one.
abbrev pub no_messages : ℤ → Feed
no_messages now = record { clock = now; messages = []; had = λ id. 0 }

-- The topic that `NewTopic` makes of the directory, over the events `es`.
pub record Behaves (name : List ℕ) (config : Config) (d : Disk) (es : List Event) : Type 0 where
  pub topic : On Topic
  pub created : new_topic name config d ≡ (ok topic.self, topic.disk)
  pub outcomes : (run es topic).0 ≡ (feed_run es (no_messages d.now)).0
  pub agrees : Agrees d.next_inode (feed_run es (no_messages d.now)).1 (run es topic).1

module _ (name : List ℕ) (config : Config) (d : Disk) (h : IsEmpty d) (k : ℕ)
    (interval : config.storage.index_interval ≡ pos (suc k)) (clock : IsInt64 d.now) where
  pub made-Agrees : Agrees d.next_inode (no_messages d.now) (made name config d)
  unfolding get_offset lookup log_bytes
  made-Agrees = record {
    holds = made-Holds name config d h k interval clock;
    clock = refl;
    within = λ id. omega arith;
    read = λ id. refl;
  }
