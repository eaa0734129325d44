-- ===== src/Queue/State.antt =====
-- pkg/queue/queue.go: the queue's state, its lock and its way to a topic.
use yuclase.Base.{ℕ, Bool, Option, none, some, List, ◌++◌, bytes_eq, if◌then◌else◌}
use yuclase.Base.Bytes.{codes}
use yuclase.Base.Exec.{Error, text, Result, ok, err, panic, deadlock, stuck, Exec}
use yuclase.Base.Assoc.{lookup, insert}
use yuclase.Config.{Config}
use yuclase.Storage.Disk.{Disk, On}
use yuclase.Topic.State.{Topic, TopicM}

-- `sync.RWMutex` between two methods: it is free unless a method never returned.
pub data Lock : Type 0 where
  free reading writing : Lock

-- A topic of the map has its directory with it.
pub record Queue : Type 0 where
  pub lock : Lock
  pub topics : List (List ℕ × On Topic)
  pub config : Config
  pub closed : Bool

-- The queue, and the directories of the topics that are not in its map, by name.
pub record Host : Type 0 where
  pub self : Queue
  pub directories : List ℕ → Disk

abbrev pub QueueM : Type 0 → Type 0
QueueM A = Exec Host A

abbrev pub with_lock : Lock → Host → Host
with_lock l s = record { self = record s.self { lock = l }; directories = s.directories }

module _ {A : Type 0} where
  -- The deferred unlock: it runs on a return and on a panic, and never after a deadlock.
  abbrev pub release : Result A × Host → Result A × Host
  release (ok a, s) = (ok a, with_lock free s)
  release (err e, s) = (err e, with_lock free s)
  release (panic, s) = (panic, with_lock free s)
  release (deadlock, s) = (deadlock, s)
  release (stuck, s) = (stuck, s)

  -- `q.mu.Lock()`, by what the lock is.
  abbrev pub exclusive_from : Lock → QueueM A → QueueM A
  exclusive_from free m s = release (m (with_lock writing s))
  exclusive_from reading m s = (deadlock, s)
  exclusive_from writing m s = (deadlock, s)

  abbrev pub exclusive : QueueM A → QueueM A
  exclusive m s = exclusive_from s.self.lock m s

  -- `q.mu.RLock()`: a reader that never returned keeps writers out, and no readers.
  abbrev pub shared_from : Lock → QueueM A → QueueM A
  shared_from free m s = release (m (with_lock reading s))
  shared_from reading m s = m s
  shared_from writing m s = (deadlock, s)

  abbrev pub shared : QueueM A → QueueM A
  shared m s = shared_from s.self.lock m s

  -- if q.closed { return fmt.Errorf("queue is closed") }
  abbrev pub while_open : QueueM A → QueueM A
  while_open m s = if s.self.closed then (err (text (codes "queue is closed")), s) else m s

-- fmt.Errorf("topic %s does not exist", topicName)
abbrev pub no_topic : List ℕ → Error
no_topic name = text (codes "topic " ++ name ++ codes " does not exist")

abbrev pub put_topic : List ℕ → On Topic → Host → Host
put_topic name t s = record {
  self = record s.self { topics = insert name t s.self.topics };
  directories = s.directories;
}

-- A topic that is not in the map has this directory.
abbrev pub put_directory : List ℕ → Disk → Host → Host
put_directory name d s = record {
  self = s.self;
  directories = λ j. if bytes_eq name j then d else s.directories j;
}

module _ {A : Type 0} where
  unfoldable pub on_topic : List ℕ → TopicM A → Option (On Topic) → QueueM A
  on_topic name m none s = (err (no_topic name), s)
  on_topic name m (some t) s = let (r, t') = m t in (r, put_topic name t' s)

  -- A method of the topic with this name, or the error that there is none.
  unfoldable pub with_topic : List ℕ → TopicM A → QueueM A
  unfolding on_topic
  with_topic name m s = on_topic name m (lookup name s.self.topics) s
