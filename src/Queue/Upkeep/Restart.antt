-- ===== src/Queue/Upkeep/Restart.antt =====
-- `Close` of pkg/queue/queue.go and `NewQueue` of the next program.
use yuclase.Base.{ℕ, true, false, none, some, List, [], ◌∷◌, ◌≡◌}
use yuclase.Base.Assoc.{lookup}
use yuclase.Base.Exec.{Result, ok}
use yuclase.Config.{Config}
use yuclase.Storage.Disk.{On}
use yuclase.Topic.State.{Topic}
use yuclase.Topic.Open.{close as close_topic}
use yuclase.Topic.Messages.Delivery.{Holds}
use yuclase.Queue.State.{Host, free}
use yuclase.Queue.Upkeep.{close, left_behind, names, new_queue}
use yuclase.Queue.Upkeep.Closing.{Serves, AllServe, shut, listed}

-- The topic `name` of a map has the messages that `t` had, and its consumers.
pub record Again (config : Config) (name : List ℕ) (t : On Topic) (x : Serves config name t)
    (topics : List (List ℕ × On Topic)) : Type 0 where
  pub topic : On Topic
  pub here : lookup name topics ≡ some topic
  pub holds : Holds x.inode x.messages topic
  pub same_consumers : topic.self.catalog.consumers ≡ t.self.catalog.consumers

abbrev pub AllAgain :
    (config : Config) (ts : List (List ℕ × On Topic))
    → AllServe config ts
    → List (List ℕ × On Topic)
    → Type 0
AllAgain config [] h topics = Unit
AllAgain config ((name, t) ∷ ts) (x, new, h) topics =
    Again config name t x topics × AllAgain config ts h topics

-- The outcome of loading the directories of `ts`.
record Loads (config : Config) (ts : List (List ℕ × On Topic)) (h : AllServe config ts) (s : Host)
    (r : Result (Unit {0}) × Host) : Type 0 where
  returned : r.0 ≡ ok tt
  same_config : r.1.self.config ≡ config
  again : AllAgain config ts h r.1.self.topics
  others : (n : List ℕ) → lookup n ts ≡ none → lookup n r.1.self.topics ≡ lookup n s.self.topics

-- The next program finds the directories that this one has left.
abbrev pub next_host : Host → Host
next_host s = record {
  self = record { lock = free; topics = []; config = s.self.config; closed = false };
  directories = (left_behind s.self.topics s).directories;
}

-- The outcome of a `Close`, after which `NewQueue` has every topic again.
pub record Reopens (s : Host) (h : AllServe s.self.config s.self.topics)
    (r : Result (Unit {0}) × Host) : Type 0 where
  pub returned : r.0 ≡ ok tt
  pub opens : (new_queue true (names (listed s.self.topics)) (next_host r.1)).0 ≡ ok tt
  pub again :
      AllAgain s.self.config s.self.topics h
        (new_queue true (names (listed s.self.topics)) (next_host r.1)).1.self.topics

abbrev closed_host : Host → Host
closed_host s = record {
  self = record s.self { topics = shut s.self.topics; closed = true; lock = free };
  directories = s.directories;
}
