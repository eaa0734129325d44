-- ===== src/Topic/History.antt =====
-- The messages and the readers of a topic of pkg/queue/topic.go over any sequence of calls and
-- restarts of the program.
pub mod Simulation
pub mod Beginning
pub mod Forgetting
mod Tests
use yuclase.Base.{
  ℕ, ◌+◌, ◌^◌, ◌<◌, true, List, [], ◌∷◌, ◌++◌, length, take, drop, bytes_eq, if◌then◌else◌,
}
use yuclase.Base.Int64.{ℤ, pos}
use yuclase.Base.Exec.{Result, ok, err, panic, deadlock, stuck}
use yuclase.Storage.Disk.{Disk, On}
use yuclase.Storage.Log.Writer.{LogEntry}
use yuclase.Storage.Log.Messages.Sequence.{Message, log_bytes, entries_at}
use yuclase.Topic.State.{Topic}
use yuclase.Topic.Messages.{enqueue, dequeue}
use yuclase.Topic.Open.{close, load_topic}

-- `wait t` is time that passes until the clock is at `t`; `restart` ends the program with a `Close`
-- and starts it again with a `LoadTopic`.
pub data Event : Type 0 where
  put : List ℕ → Event
  get : List ℕ → ℕ → Event
  wait : ℕ → Event
  restart : Event

pub data Outcome : Type 0 where
  sent : Result ℤ → Outcome
  received : Result (List LogEntry) → Outcome
  waited : Outcome
  restarted : Result (Unit {0}) → Outcome

-- What `LoadTopic` gives after a `Close` that returned `r` and left `s`.
abbrev loaded_again : Result (Unit {0}) → On Topic → Result Topic × Disk → Outcome × On Topic
loaded_again r s (ok t, d) = (restarted r, record { self = t; disk = d })
loaded_again r s (err e, d) = (restarted (err e), record { self = s.self; disk = d })
loaded_again r s (panic, d) = (restarted panic, record { self = s.self; disk = d })
loaded_again r s (deadlock, d) = (restarted deadlock, record { self = s.self; disk = d })
loaded_again r s (stuck, d) = (restarted stuck, record { self = s.self; disk = d })

unfoldable pub step : Event → On Topic → Outcome × On Topic
step (put p) s = let (r, t) = enqueue p s in (sent r, t)
step (get id n) s = let (r, t) = dequeue id (pos n) s in (received r, t)
step (wait t) s = (waited, record { self = s.self; disk = record s.disk { now = pos t } })
step restart s =
    let (r, t) = close s in loaded_again r t (load_topic true s.self.name s.self.config t.disk)

unfoldable pub run : List Event → On Topic → List Outcome × On Topic
run [] s = ([], s)
run (e ∷ es) s = let (o, t) = step e s in let (os, u) = run es t in (o ∷ os, u)

-- What a topic means: the messages in order, and how many of them each consumer has had.
pub record Feed : Type 0 where
  pub clock : ℤ
  pub messages : List Message
  pub had : List ℕ → ℕ

unfoldable pub feed_step : Event → Feed → Outcome × Feed
feed_step (put p) f = (
  sent (ok (pos (length (log_bytes f.messages)))),
  record f { messages = f.messages ++ record { timestamp = f.clock; payload = p } ∷ [] },
)
feed_step (get id n) f =
    let seen = take (f.had id) f.messages in
    let batch = take n (drop (f.had id) f.messages) in
    (
      received (ok (entries_at (length (log_bytes seen)) batch)),
      record f { had = λ j. if bytes_eq id j then f.had id + length batch else f.had j },
    )
feed_step (wait t) f = (waited, record f { clock = pos t })
feed_step restart f = (restarted (ok tt), f)

unfoldable pub feed_run : List Event → Feed → List Outcome × Feed
feed_run [] f = ([], f)
feed_run (e ∷ es) f = let (o, g) = feed_step e f in let (os, h) = feed_run es g in (o ∷ os, h)

-- The segment of `n` bytes stays below 2 ^ 32 bytes, and the times are int64 values.
abbrev pub Fits : ℕ → List Event → Type 0
Fits n [] = n < 2 ^ 32
Fits n (put p ∷ es) = Fits (n + (12 + length p)) es
Fits n (get id m ∷ es) = Fits n es
Fits n (wait t ∷ es) = (t < 2 ^ 63) × Fits n es
Fits n (restart ∷ es) = Fits n es
