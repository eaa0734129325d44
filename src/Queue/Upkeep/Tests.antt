-- ===== src/Queue/Upkeep/Tests.antt =====
-- The restart of pkg/queue/queue.go at a concrete queue.
use yuclase.Base.{false, List, [], ◌∷◌, ℕ}
use yuclase.Base.Int64.{pos}
use yuclase.Base.Bytes.{codes}
use yuclase.Config.{Config}
use yuclase.Config.Load.{defaults}
use yuclase.Storage.Disk.{On}
use yuclase.Storage.Samples.{empty_disk}
use yuclase.Topic.State.{Topic}
use yuclase.Topic.Samples.{filled_topic}
use yuclase.Queue.Samples.{orders}
use yuclase.Queue.State.{free, Host}

-- The configuration once its intervals are read.
abbrev config : Config
config = record defaults {
  performance = record defaults.performance { cleanup_duration = pos 1000 };
}

-- A topic with one message.
abbrev named : List ℕ → On Topic
named name = record {
  self = record filled_topic.self { name = name; config = config };
  disk = filled_topic.disk;
}

abbrev two_topics : Host
two_topics = record {
  self = record {
    lock = free;
    topics = (orders, named orders) ∷ (codes "bills", named (codes "bills")) ∷ [];
    config = config;
    closed = false;
  };
  directories = λ name. empty_disk;
}
