-- ===== src/Queue/Upkeep.antt =====
-- pkg/queue/queue.go: loading, `Sync`, `Close`, `Reset` and a round of the cleanup.
pub mod Closing
pub mod Restart
mod Tests
use yuclase.Base.{ℕ, Bool, true, false, List, [], ◌∷◌, ◌++◌, if◌then◌else◌}
use yuclase.Base.Int64.{pos, leb_ℤ}
use yuclase.Base.Bytes.{codes}
use yuclase.Base.Exec.{
  mkdir_call, read_dir_call, os_error, Error, wrap, Result, ok, err, panic, deadlock, stuck, pure,
  raise, lift, wrapping, ◌>>=◌, ◌>>◌,
}
use yuclase.Config.{get_cleanup_interval}
use yuclase.Storage.Disk.{Disk, On}
use yuclase.Topic.State.{Topic, TopicM}
use yuclase.Topic.Open.{load_topic, delete, close as close_topic, report}
use yuclase.Topic.Upkeep.{sync as sync_topic, cleanup_old_messages}
use yuclase.Queue.State.{
  Queue, Host, QueueM, exclusive, shared, while_open, put_topic, put_directory,
}

-- One more error of a loop over the topics.
abbrev one_more : Error → Result (List Error) → Result (List Error)
one_more e (ok es) = ok (e ∷ es)
one_more e (err x) = err x
one_more e panic = panic
one_more e deadlock = deadlock
one_more e stuck = stuck

-- `for name, topic := range q.topics`: the errors are collected.
unfoldable pub each_topic :
    List ℕ
    → TopicM (Unit {0})
    → List (List ℕ × On Topic)
    → Result (List Error) × List (List ℕ × On Topic)
each_topic message m [] = (ok [], [])
each_topic message m ((name, t) ∷ ts) =
    let (r, t') = m t in
    let (es, ts') = each_topic message m ts in
    elim r [
      | ok u ↦ (es, (name, t') ∷ ts')
      | err e ↦ (one_more (wrap (message ++ name) e) es, (name, t') ∷ ts')
      | panic ↦ (panic, (name, t') ∷ ts)
      | deadlock ↦ (deadlock, (name, t') ∷ ts)
      | stuck ↦ (stuck, (name, t') ∷ ts)
    ]

abbrev pub for_topics : List ℕ → TopicM (Unit {0}) → QueueM (List Error)
for_topics message m s =
    let (r, ts) = each_topic message m s.self.topics in
    (r, record { self = record s.self { topics = ts }; directories = s.directories })

abbrev pub set_queue : (Queue → Queue) → QueueM (Unit {0})
set_queue f s = (ok tt, record { self = f s.self; directories = s.directories })

-- `Sync`
unfoldable pub sync : QueueM (Unit {0})
sync = shared (
    while_open do
      errors ← for_topics (codes "failed to sync topic ") sync_topic
      lift (report (codes "sync errors") errors))

-- `Close`, once the cleanup process has ended.
unfoldable pub close : QueueM (Unit {0})
close = exclusive λ s.
    if s.self.closed
    then (ok tt, s)
    else (do
      errors ← for_topics (codes "failed to close topic ") close_topic
      set_queue λ q. record q { closed = true }
      lift (report (codes "close errors") errors))
        s

-- The directories that the topics of a map leave behind.
unfoldable pub left_behind : List (List ℕ × On Topic) → Host → Host
left_behind [] s = s
left_behind ((name, t) ∷ ts) s = put_directory name t.disk (left_behind ts s)

-- `Reset`
unfoldable pub reset : QueueM (Unit {0})
unfolding left_behind
reset = exclusive (
    while_open do
      errors ← for_topics (codes "failed to delete topic ") delete
      λ s. (ok tt, left_behind s.self.topics s)
      set_queue λ q. record q { topics = [] }
      lift (report (codes "reset errors") errors))

-- `performCleanup`: the errors are dropped.
unfoldable pub perform_cleanup : QueueM (Unit {0})
perform_cleanup = shared (pure tt) >> (for_topics [] cleanup_old_messages >>= λ es. pure tt)

-- What `os.Stat` and `os.ReadDir` say about the directory of all topics.
pub data Listing : Type 0 where
  missing unreadable : Listing
  names : List (List ℕ × Bool) → Listing

-- A topic that cannot be loaded is left out.
loaded : List ℕ → Result Topic × Disk → QueueM (Unit {0})
loaded name (ok t, d) s = (ok tt, put_topic name (record { self = t; disk = d }) s)
loaded name (err e, d) s = (ok tt, put_directory name d s)
loaded name (panic, d) s = (panic, put_directory name d s)
loaded name (deadlock, d) s = (deadlock, put_directory name d s)
loaded name (stuck, d) s = (stuck, put_directory name d s)

-- The loop of `loadExistingTopics`, over names and whether they are directories.
unfoldable pub load_topics : List (List ℕ × Bool) → QueueM (Unit {0})
unfolding loaded
load_topics [] = pure tt
load_topics ((name, false) ∷ es) = load_topics es
load_topics ((name, true) ∷ es) =
    (λ s. loaded name (load_topic true name s.self.config (s.directories name)) s) >> load_topics es

-- `loadExistingTopics`
unfoldable pub load_existing_topics : Listing → QueueM (Unit {0})
load_existing_topics missing = pure tt
load_existing_topics unreadable =
    raise (wrap (codes "failed to read topics directory") (os_error read_dir_call))
load_existing_topics (names es) = load_topics es

-- `startCleanup`: a ticker of no length panics.
unfoldable pub start_cleanup : QueueM (Unit {0})
start_cleanup s =
    if leb_ℤ (get_cleanup_interval s.self.config) (pos 0) then (panic, s) else (ok tt, s)

-- `NewQueue`, by whether the data directory can be made.
unfoldable pub new_queue : Bool → Listing → QueueM (Unit {0})
new_queue made listing =
    (λ s.
      if made
      then (ok tt, s)
      else (err (wrap (codes "failed to create data directory") (os_error mkdir_call)), s))
    >> (wrapping (codes "failed to load existing topics") (load_existing_topics listing)
        >> start_cleanup)
