-- ===== src/Queue/Samples.antt =====
-- A queue of pkg/queue/queue.go with one topic, for the tests.
use yuclase.Base.{ℕ, false, List, [], ◌∷◌}
use yuclase.Base.Bytes.{codes}
use yuclase.Config.Load.{defaults}
use yuclase.Storage.Samples.{empty_disk}
use yuclase.Topic.Samples.{topic}
use yuclase.Queue.State.{free, Host}

abbrev pub orders : List ℕ
orders = codes "orders"

abbrev pub host : Host
host = record {
  self = record { lock = free; topics = (orders, topic) ∷ []; config = defaults; closed = false };
  directories = λ name. empty_disk;
}
