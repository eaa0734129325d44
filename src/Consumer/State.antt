-- ===== src/Consumer/State.antt =====
-- pkg/queue/consumer.go: the consumer's state and its methods.
use yuclase.Base.{ℕ, ◌+◌, ◌*◌, Bool, true, false, List, [], ◌++◌, bytes_eq, if◌then◌else◌}
use yuclase.Base.Int64.{ℤ, pos, pos_part, neg_part, sub_ℕ, sub64, ltb_ℤ}
use yuclase.Base.Bytes.{codes}
use yuclase.Base.Exec.{Error, text, ok, err, Exec, pure, gets, wrapping, modify, ◌>>=◌, ◌>>◌}
use yuclase.Storage.Log.Writer.{LogEntry}
use yuclase.Storage.Catalog.Consumers.{time_since}
use yuclase.Queue.State.{Host, QueueM}
use yuclase.Queue.Topics.{get_consumer_offset, update_consumer_offset, get_topic_stats}

-- `messages`, `errors` and `stop_signal` are what the three channels hold; `Stop` closes the first
-- two when it sets `stopped`.
pub record Consumer : Type 0 where
  pub id : List ℕ
  pub topic_name : List ℕ
  pub offset : ℤ
  pub last_activity : ℤ
  pub active : Bool
  pub messages : List LogEntry
  pub errors : List Error
  pub stop_signal : Bool
  pub stopped : Bool

-- The consumer, the queue that it reads and the time.
pub record Client : Type 0 where
  pub self : Consumer
  pub host : Host
  pub now : ℤ

abbrev pub ClientM : Type 0 → Type 0
ClientM A = Exec Client A

abbrev pub set_consumer : (Consumer → Consumer) → ClientM (Unit {0})
set_consumer f = modify λ s. record s { self = f s.self }

abbrev pub on_queue : {A : Type 0} → QueueM A → ClientM A
on_queue m s = let (r, h) = m s.host in (r, record s { host = h })

abbrev fresh : List ℕ → List ℕ → ℤ → ℤ → Consumer
fresh id topic_name offset now = record {
  id = id;
  topic_name = topic_name;
  offset = offset;
  last_activity = now;
  active = false;
  messages = [];
  errors = [];
  stop_signal = false;
  stopped = false;
}

-- `NewConsumer` at the time `now`.
unfoldable pub new_consumer : List ℕ → List ℕ → ℤ → QueueM Consumer
new_consumer id topic_name now h =
    if bytes_eq id []
    then (err (text (codes "consumer ID cannot be empty")), h)
    else if bytes_eq topic_name []
    then (err (text (codes "topic name cannot be empty")), h)
    else ((do
      offset ← wrapping (codes "failed to get consumer offset") (get_consumer_offset topic_name id)
      pure (fresh id topic_name offset now))
        h)

-- c.lastActivity = time.Now(): `UpdateActivity`
abbrev pub update_activity : ClientM (Unit {0})
update_activity s = (ok tt, record s { self = record s.self { last_activity = s.now } })

-- `Start`; the goroutine that it starts is `consume_tick`.
unfoldable pub start : ClientM (Unit {0})
start s =
    if s.self.active
    then (err (text (codes "consumer " ++ s.self.id ++ codes " is already active")), s)
    else if s.self.stopped
    then (err (text (codes "consumer " ++ s.self.id ++ codes " has been stopped")), s)
    else (ok tt, record s { self = record s.self { active = true; last_activity = s.now } })

-- `Stop`: the signal is dropped where one is in the channel.
unfoldable pub stop : ClientM (Unit {0})
stop s =
    if s.self.active
    then (
      ok tt,
      record s { self = record s.self { active = false; stopped = true; stop_signal = true } },
    )
    else (ok tt, s)

-- `CommitOffset`
unfoldable pub commit_offset : ClientM (Unit {0})
commit_offset s =
    ((wrapping (codes "failed to commit offset")
          (on_queue (update_consumer_offset s.self.topic_name s.self.id s.self.offset)))
        >> update_activity)
      s

-- `SetOffset`: the offset is set whether or not the queue takes it.
unfoldable pub set_offset : ℤ → ClientM (Unit {0})
set_offset offset s =
    ((set_consumer λ c. record c { offset = offset; last_activity = s.now })
        >> on_queue (update_consumer_offset s.self.topic_name s.self.id offset))
      s

-- `Reset`
unfoldable pub reset : ClientM (Unit {0})
reset = set_offset (pos 0)

-- The size of the topic, as `GetTopicStats` gives it.
abbrev topic_size : ClientM ℤ
topic_size s =
    (wrapping (codes "failed to get topic stats") (on_queue (get_topic_stats s.self.topic_name))
        >>= λ t. pure t.size)
      s

-- `SeekToEnd`
unfoldable pub seek_to_end : ClientM (Unit {0})
seek_to_end = topic_size >>= set_offset

-- time.Now().Add(-24 * time.Hour)
abbrev yesterday : ℤ → ℤ
yesterday now = let day = 24 * (3600 * 1000000000) in sub_ℕ (pos_part now) (neg_part now + day)

-- `SeekToTimestamp`
unfoldable pub seek_to_timestamp : ℤ → ClientM (Unit {0})
seek_to_timestamp timestamp s = if ltb_ℤ timestamp (yesterday s.now) then reset s else seek_to_end s

-- if lag < 0 { lag = 0 }
abbrev pub not_negative : ℤ → ℤ
not_negative lag = if ltb_ℤ lag (pos 0) then pos 0 else lag

-- `GetLag`
unfoldable pub get_lag : ClientM ℤ
get_lag = do
  size ← topic_size
  offset ← gets (λ s. s.self.offset)
  pure (not_negative (sub64 size offset))

-- `IsStale`
unfoldable pub is_stale : ℤ → Client → Bool
is_stale max_age s = ltb_ℤ max_age (time_since s.now s.self.last_activity)

pub record ConsumerInfo : Type 0 where
  pub id : List ℕ
  pub topic_name : List ℕ
  pub offset : ℤ
  pub last_activity : ℤ
  pub active : Bool

-- `GetInfo`
unfoldable pub get_info : Consumer → ConsumerInfo
get_info c = record {
  id = c.id;
  topic_name = c.topic_name;
  offset = c.offset;
  last_activity = c.last_activity;
  active = c.active;
}
