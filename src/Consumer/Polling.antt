-- ===== src/Consumer/Polling.antt =====
-- pkg/queue/consumer.go: `consumeLoop` and `pollMessages`.
pub mod Sent
use yuclase.Base.{ℕ, suc, ◌+◌, Bool, true, false, List, [], ◌∷◌, ◌++◌, length, ltb, if◌then◌else◌}
use yuclase.Base.Int64.{ℤ, pos, leb_ℤ}
use yuclase.Base.Bytes.{codes}
use yuclase.Base.Exec.{Error, Result, ok, err, panic, deadlock, stuck, wrapping, ◌>>=◌, ◌>>◌}
use yuclase.Storage.Log.Writer.{LogEntry}
use yuclase.Queue.Topics.{dequeue_with_limit}
use yuclase.Consumer.State.{Consumer, Client, ClientM, set_consumer, on_queue}

-- make(chan *storage.LogEntry, 100), make(chan error, 10)
abbrev pub message_capacity : ℕ
message_capacity = 100

abbrev error_capacity : ℕ
error_capacity = 10

-- The consumer once a message is in its channel.
abbrev pub with_message : ℤ → LogEntry → Consumer → Consumer
with_message now m c = record c {
  messages = c.messages ++ m ∷ [];
  offset = m.offset;
  last_activity = now;
}

-- The loop of `pollMessages` over what was dequeued, from the offset that the consumer had. A send
-- on a closed channel panics, and a full channel ends the loop.
unfoldable pub poll_loop : ℤ → ℤ → List LogEntry → Consumer → Result (Unit {0}) × Consumer
poll_loop now current [] c = (ok tt, c)
poll_loop now current (m ∷ ms) c =
    if leb_ℤ m.offset current
    then poll_loop now current ms c
    else if c.stopped
    then (panic, c)
    else if ltb (length c.messages) message_capacity
    then poll_loop now current ms (with_message now m c)
    else (ok tt, c)

-- The entries go through the loop.
abbrev pub process : List LogEntry → ClientM (Unit {0})
process ms s = let (r, c) = poll_loop s.now s.self.offset ms s.self in (r, record s { self = c })

-- `pollMessages`
unfoldable pub poll_messages : ClientM (Unit {0})
poll_messages s =
    ((wrapping (codes "failed to dequeue messages")
          (on_queue (dequeue_with_limit s.self.topic_name s.self.id (pos 10))))
        >>= process)
      s

-- A send on the error channel, which drops the error when it is full.
abbrev send_error : Error → ClientM (Unit {0})
send_error e s =
    if s.self.stopped
    then (panic, s)
    else if ltb (length s.self.errors) error_capacity
    then (ok tt, record s { self = record s.self { errors = s.self.errors ++ e ∷ [] } })
    else (ok tt, s)

-- A tick of `consumeLoop`: the error of a poll is sent.
unfoldable pub consume_tick : ClientM (Unit {0})
consume_tick s =
    let (r, s') = poll_messages s in
    elim r [
      | ok u ↦ (ok tt, s')
      | err e ↦ send_error e s'
      | panic ↦ (panic, s')
      | deadlock ↦ (deadlock, s')
      | stuck ↦ (stuck, s')
    ]
