-- ===== src/Consumer/Lifecycle.antt =====
-- `Start` and `Stop` of pkg/queue/consumer.go, and a poll that `Stop` overtakes.
use yuclase.Base.{ℕ, ◌≡◌, refl, ap, ◌∙◌, true, false, List, ◌∷◌, ◌++◌, arith}
use yuclase.Base.Int64.{pos, leb_ℤ, ◌<ℤ◌}
use yuclase.Base.Bytes.{codes}
use yuclase.Base.Exec.{Error, text, ok, err, panic, bind_result, wrap_result}
use yuclase.Storage.Log.Writer.{LogEntry}
use yuclase.Queue.Topics.{dequeue_with_limit}
use yuclase.Consumer.State.{Client, start, stop}
use yuclase.Consumer.Polling.{poll_loop, poll_messages, process}
use yuclase.Consumer.Polling.Sent.{on_old, on_stop}

-- fmt.Errorf("consumer %s is already active", c.id) and the like
abbrev about : Client → List ℕ → Error
about s t = text (codes "consumer " ++ s.self.id ++ t)

-- A consumer runs once.
pub record RunsOnce (s : Client) : Type 0 where
  pub starts : (start s).0 ≡ ok tt
  pub no_second_start :
      start (start s).1 ≡ (err (about s (codes " is already active")), (start s).1)
  pub stops : (stop (start s).1).0 ≡ ok tt
  pub no_restart :
      start (stop (start s).1).1 ≡ (err (about s (codes " has been stopped")), (stop (start s).1).1)
  pub stops_once : stop (stop (start s).1).1 ≡ (ok tt, (stop (start s).1).1)

module _ (s : Client) where
  -- A new consumer starts once: a second `Start` is an error that changes nothing, `Stop` ends it,
  -- a `Start` after that is an error that changes nothing, and a second `Stop` does nothing.
  pub new-RunsOnce : s.self.active ≡ false → s.self.stopped ≡ false → RunsOnce s
  unfolding start stop
  new-RunsOnce inactive live = record {
    starts = rw (inactive) (rw (live) refl);
    no_second_start = rw (inactive) (rw (live) refl);
    stops = rw (inactive) (rw (live) refl);
    no_restart = rw (inactive) (rw (live) refl);
    stops_once = rw (inactive) (rw (live) refl);
  }

  -- A poll of a consumer that has been stopped meanwhile panics as soon as it has a message to send.
  pub stopped_poll-panics :
      (m : LogEntry) (ms : List LogEntry)
      → (dequeue_with_limit s.self.topic_name s.self.id (pos 10) s.host).0 ≡ ok (m ∷ ms)
      → s.self.offset <ℤ m.offset
      → s.self.stopped ≡ true
      → (poll_messages s).0 ≡ panic
  unfolding poll_messages poll_loop
  stopped_poll-panics m ms read' behind dead =
      let after = record s {
        host = (dequeue_with_limit s.self.topic_name s.self.id (pos 10) s.host).1;
      } in
      let new : leb_ℤ m.offset s.self.offset ≡ false = ground arith in
      ap (λ x. (bind_result (wrap_result (codes "failed to dequeue messages") x) process after).0)
        read'
      ∙ ap (λ b. (on_old s.now s.self.offset m ms s.self b).0) new
      ∙ ap (λ b. (on_stop s.now s.self.offset m ms s.self b).0) dead
