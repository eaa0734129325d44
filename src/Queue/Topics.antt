-- ===== src/Queue/Topics.antt =====
-- pkg/queue/queue.go: messages, consumers, and the creation and deletion of topics.
pub mod Isolation
pub mod Deletion
pub mod Routing
use yuclase.Base.{
  ℕ, suc, Bool, true, false, Option, none, some, List, [], ◌∷◌, ◌++◌, map, length, if◌then◌else◌,
}
use yuclase.Base.Int64.{ℤ, pos, add64}
use yuclase.Base.Bytes.{codes}
use yuclase.Base.Exec.{
  Error, text, Result, ok, err, panic, deadlock, stuck, Exec, pure, lift, gets, wrapping, ◌>>=◌,
  ◌>>◌,
}
use yuclase.Base.Assoc.{lookup, insert, remove}
use yuclase.Storage.Disk.{Disk, On}
use yuclase.Storage.Log.Writer.{LogEntry}
use yuclase.Topic.State.{Topic, TopicStats, get_stats}
use yuclase.Topic.Open.{new_topic, delete}
use yuclase.Topic.Messages.{
  enqueue as topic_enqueue, dequeue as topic_dequeue,
  update_consumer_offset as topic_update_consumer_offset,
  get_consumer_offset as topic_get_consumer_offset, list_topic_consumers,
}
use yuclase.Queue.State.{
  Queue, Host, QueueM, exclusive, shared, while_open, no_topic, put_topic, put_directory,
  with_topic,
}

-- q.topics[topicName] = topic, or the return of the error.
unfoldable pub registered : List ℕ → Result Topic × Disk → QueueM (Unit {0})
registered name (ok t, d) s = (ok tt, put_topic name (record { self = t; disk = d }) s)
registered name (err e, d) s = (err e, put_directory name d s)
registered name (panic, d) s = (panic, put_directory name d s)
registered name (deadlock, d) s = (deadlock, put_directory name d s)
registered name (stuck, d) s = (stuck, put_directory name d s)

unfoldable pub add_topic : List ℕ → QueueM (Unit {0})
add_topic name s = registered name (new_topic name s.self.config (s.directories name)) s

-- `getOrCreateTopic`, by what the map holds: afterwards the topic is in the map.
abbrev pub or_create : List ℕ → Option (On Topic) → QueueM (Unit {0})
or_create name (some t) s = (ok tt, s)
or_create name none s = add_topic name s

unfoldable pub get_or_create_topic : List ℕ → QueueM (Unit {0})
get_or_create_topic name s = or_create name (lookup name s.self.topics) s

-- `Enqueue`
unfoldable pub enqueue : List ℕ → List ℕ → QueueM ℤ
enqueue topic_name payload = exclusive (
    while_open (
      wrapping (codes "failed to get topic " ++ topic_name) (get_or_create_topic topic_name)
      >> with_topic topic_name (topic_enqueue payload)))

-- `DequeueWithLimit`, and `Dequeue`
unfoldable pub dequeue_with_limit : List ℕ → List ℕ → ℤ → QueueM (List LogEntry)
dequeue_with_limit topic_name consumer_id max_messages =
    shared (while_open (with_topic topic_name (topic_dequeue consumer_id max_messages)))

unfoldable pub dequeue : List ℕ → List ℕ → QueueM (List LogEntry)
dequeue topic_name consumer_id = dequeue_with_limit topic_name consumer_id (pos 10)

-- `UpdateConsumerOffset`
unfoldable pub update_consumer_offset : List ℕ → List ℕ → ℤ → QueueM (Unit {0})
update_consumer_offset topic_name consumer_id offset =
    shared (while_open (with_topic topic_name (topic_update_consumer_offset consumer_id offset)))

-- `GetConsumerOffset`
unfoldable pub get_consumer_offset : List ℕ → List ℕ → QueueM ℤ
get_consumer_offset topic_name consumer_id =
    shared (with_topic topic_name (topic_get_consumer_offset consumer_id))

-- fmt.Errorf("topic %s already exists", topicName)
abbrev pub topic_exists_error : List ℕ → Error
topic_exists_error name = text (codes "topic " ++ name ++ codes " already exists")

-- `CreateTopic` under the lock, on an open queue.
abbrev pub create_if_new : List ℕ → Option (On Topic) → QueueM (Unit {0})
create_if_new name (some t) s = (err (topic_exists_error name), s)
create_if_new name none s = wrapping (codes "failed to create topic " ++ name) (add_topic name) s

unfoldable pub create_body : List ℕ → QueueM (Unit {0})
create_body name s = create_if_new name (lookup name s.self.topics) s

-- `CreateTopic`
unfoldable pub create_topic : List ℕ → QueueM (Unit {0})
create_topic name = exclusive (while_open (create_body name))

-- delete(q.topics, topicName): the directory stays behind as the topic left it.
unfoldable pub forget : List ℕ → Option (On Topic) → QueueM (Unit {0})
forget name none s = (ok tt, s)
forget name (some t) s = (
  ok tt,
  put_directory name t.disk (record {
    self = record s.self { topics = remove name s.self.topics };
    directories = s.directories;
  }),
)

-- `DeleteTopic` under the lock, on an open queue.
unfoldable pub delete_body : List ℕ → QueueM (Unit {0})
delete_body name =
    wrapping (codes "failed to delete topic " ++ name) (with_topic name delete) >> λ s.
    forget name (lookup name s.self.topics) s

-- The topic that does not exist has an error of its own.
abbrev pub known : List ℕ → QueueM (Unit {0}) → Option (On Topic) → QueueM (Unit {0})
known name m none s = (err (no_topic name), s)
known name m (some t) s = m s

-- `DeleteTopic`
unfoldable pub delete_topic : List ℕ → QueueM (Unit {0})
delete_topic name =
    exclusive (while_open (λ s. known name (delete_body name) (lookup name s.self.topics) s))

-- `ListTopics`, `GetTopicCount`, `IsEmpty` and `TopicExists`
unfoldable pub list_topics : QueueM (List (List ℕ))
list_topics = shared (gets λ s. map (λ e. e.0) s.self.topics)

unfoldable pub get_topic_count : QueueM ℕ
get_topic_count = shared (gets λ s. length s.self.topics)

abbrev no_topics : List (List ℕ × On Topic) → Bool
no_topics [] = true
no_topics (t ∷ ts) = false

unfoldable pub is_empty : QueueM Bool
is_empty = shared (gets λ s. no_topics s.self.topics)

abbrev pub is_some : Option (On Topic) → Bool
is_some none = false
is_some (some t) = true

unfoldable pub topic_exists : List ℕ → QueueM Bool
topic_exists name = shared (gets λ s. is_some (lookup name s.self.topics))

-- `GetTopicStats`
unfoldable pub get_topic_stats : List ℕ → QueueM TopicStats
get_topic_stats name = shared (with_topic name get_stats)

pub record QueueStats : Type 0 where
  pub topic_count : ℕ
  pub total_messages : ℤ
  pub total_size : ℤ
  pub stats : List (List ℕ × TopicStats)

abbrev counted : List ℕ → TopicStats → QueueStats → QueueStats
counted name t q = record q {
  total_messages = add64 q.total_messages t.message_count;
  total_size = add64 q.total_size t.size;
  stats = insert name t q.stats;
}

-- The loop of `GetQueueStats`: a topic with an error is left out.
unfoldable pub stats_loop : QueueStats → List (List ℕ × On Topic) → Result QueueStats
stats_loop q [] = ok q
stats_loop q ((name, t) ∷ ts) = elim (get_stats t).0 [
  | ok x ↦ stats_loop (counted name x q) ts
  | err e ↦ stats_loop q ts
  | panic ↦ panic
  | deadlock ↦ deadlock
  | stuck ↦ stuck
]

-- `GetQueueStats`
unfoldable pub get_queue_stats : QueueM QueueStats
unfolding stats_loop
get_queue_stats = shared λ s. (
  stats_loop
      (record {
        topic_count = length s.self.topics;
        total_messages = pos 0;
        total_size = pos 0;
        stats = [];
      })
      s.self.topics,
  s,
)

-- `ListConsumers`
unfoldable pub list_consumers : List ℕ → QueueM (List (List ℕ))
list_consumers name = shared (with_topic name list_topic_consumers)
