-- ===== src/Protocol/Request.antt =====
-- internal/network: the requests, by their words and by what the queue does for them.
pub mod Serving
pub mod Calling
use yuclase.Base.{ℕ, List, [], ◌∷◌, ◌++◌, map, if◌then◌else◌}
use yuclase.Base.Int64.{ℤ, pos, IsInt64}
use yuclase.Base.Bytes.{codes, decimal_ℤ}
use yuclase.Base.Text.{join}
use yuclase.Base.Text.Words.{AreWords}
use yuclase.Base.Exec.{text, Result, ok, err, panic, deadlock, stuck, pure, raise, wrapping, ◌>>=◌}
use yuclase.Topic.State.{TopicStats}
use yuclase.Queue.State.{QueueM}
use yuclase.Queue.Topics.{
  QueueStats, enqueue, dequeue, update_consumer_offset, get_consumer_offset, create_topic,
  delete_topic, list_topics, topic_exists, get_queue_stats, get_topic_stats, list_consumers,
}
use yuclase.Server.Commands.{help_lines}
use yuclase.Protocol.Reply.{Item, bulk, number, Reply, status, one, many}

pub data Request : Type 0 where
  put : List ℕ → List ℕ → List (List ℕ) → Request
  listen offset_of : List ℕ → List ℕ → Request
  set_offset : List ℕ → List ℕ → ℤ → Request
  topics stats : Request
  stats_of consumers_of create delete : List ℕ → Request
  ping : Request
  echo : List ℕ → Request
  help : Request

-- The command line.
abbrev pub name_of : Request → List ℕ
name_of (put topic word words) = codes "ENQUEUE"
name_of (listen topic id) = codes "LISTEN"
name_of (offset_of topic id) = codes "OFFSET"
name_of (set_offset topic id offset) = codes "OFFSET"
name_of topics = codes "TOPICS"
name_of stats = codes "STATS"
name_of (stats_of topic) = codes "STATS"
name_of (consumers_of topic) = codes "CONSUMERS"
name_of (create topic) = codes "CREATE"
name_of (delete topic) = codes "DELETE"
name_of ping = codes "PING"
name_of (echo word) = codes "PING"
name_of help = codes "HELP"

abbrev pub arguments : Request → List (List ℕ)
arguments (put topic word words) = topic ∷ word ∷ words
arguments (listen topic id) = topic ∷ id ∷ []
arguments (offset_of topic id) = topic ∷ id ∷ []
arguments (set_offset topic id offset) = topic ∷ id ∷ decimal_ℤ offset ∷ []
arguments topics = []
arguments stats = []
arguments (stats_of topic) = topic ∷ []
arguments (consumers_of topic) = topic ∷ []
arguments (create topic) = topic ∷ []
arguments (delete topic) = topic ∷ []
arguments ping = []
arguments (echo word) = word ∷ []
arguments help = []

-- The words are printable ASCII and not empty, and an offset is an int64.
abbrev pub OffsetFits : Request → Type 0
OffsetFits (set_offset topic id offset) = IsInt64 offset
OffsetFits _ = Unit {0}

pub record IsRequest (r : Request) : Type 0 where
  pub words : AreWords (name_of r ∷ arguments r)
  pub offsets : OffsetFits r

abbrev pub line_of : Request → List ℕ
line_of r = join (name_of r ∷ arguments r)

abbrev pub bulks : List (List ℕ) → Reply
bulks ss = many (map bulk ss)

abbrev pub done : Reply
done = status (codes "OK")

abbrev pub queue_items : QueueStats → List Item
queue_items s =
    bulk (codes "topic_count")
    ∷ number (pos s.topic_count)
    ∷ bulk (codes "total_messages")
    ∷ number s.total_messages
    ∷ bulk (codes "total_size")
    ∷ number s.total_size
    ∷ []

abbrev pub topic_items : TopicStats → List Item
topic_items s =
    bulk (codes "name")
    ∷ bulk s.name
    ∷ bulk (codes "message_count")
    ∷ number s.message_count
    ∷ bulk (codes "size")
    ∷ number s.size
    ∷ bulk (codes "consumers")
    ∷ number (pos s.consumers)
    ∷ []

-- What a request asks of the queue, and the reply to it.
abbrev pub perform : Request → QueueM Reply
perform (put topic word words) =
    wrapping (codes "failed to enqueue") (enqueue topic (join (word ∷ words))) >>= λ offset.
    pure (one (number offset))
perform (listen topic id) = topic_exists topic >>= λ exists.
    if exists
    then (wrapping (codes "failed to dequeue") (dequeue topic id) >>= λ messages.
        pure (bulks (map (λ m. m.payload) messages)))
    else raise (text (codes "topic " ++ topic ++ codes " does not exist"))
perform (offset_of topic id) =
    wrapping (codes "failed to get offset") (get_consumer_offset topic id) >>= λ offset.
    pure (one (number offset))
perform (set_offset topic id offset) =
    wrapping (codes "failed to update offset") (update_consumer_offset topic id offset) >>= λ _.
    pure done
perform topics = list_topics >>= λ names. pure (bulks names)
perform stats = wrapping (codes "failed to get queue stats") get_queue_stats >>= λ s.
    pure (many (queue_items s))
perform (stats_of topic) =
    wrapping (codes "failed to get topic stats") (get_topic_stats topic) >>= λ s.
    pure (many (topic_items s))
perform (consumers_of topic) =
    wrapping (codes "failed to list consumers") (list_consumers topic) >>= λ names.
    pure (bulks names)
perform (create topic) =
    wrapping (codes "failed to create topic") (create_topic topic) >>= λ _. pure done
perform (delete topic) =
    wrapping (codes "failed to delete topic") (delete_topic topic) >>= λ _. pure done
perform ping = pure (status (codes "PONG"))
perform (echo word) = pure (one (bulk word))
perform help = pure (bulks help_lines)
