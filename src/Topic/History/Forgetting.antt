-- ===== src/Topic/History/Forgetting.antt =====
-- The life of a topic of pkg/queue/topic.go in a program that ends without a `Close`.
use yuclase.Base.{ℕ, suc, ◌≡◌, refl, ap, ◌∙◌, true, false, List, [], ◌∷◌, length, arith, bytes_eq}
use yuclase.Base.Int64.{pos, IsInt64}
use yuclase.Base.Assoc.{lookup}
use yuclase.Base.Exec.{ok}
use yuclase.Config.{Config}
use yuclase.Storage.Disk.{Disk, On}
use yuclase.Storage.Log.Writer.Writing.{side_files}
use yuclase.Storage.Log.Messages.Sequence.{log_bytes}
use yuclase.Storage.Index.File.RoundTrip.{all_bytes}
use yuclase.Storage.Catalog.File.{loaded}
use yuclase.Storage.Catalog.Consumers.{get_offset}
use yuclase.Topic.State.{Topic}
use yuclase.Topic.Messages.Delivery.{enqueue-Holds}
use yuclase.Topic.Open.{new_topic, load_topic}
use yuclase.Topic.Open.Creation.{IsEmpty, made, new_topic_lem}
use yuclase.Topic.Open.Crash.{crash-Recovers}
use yuclase.Topic.History.{
  Event, put, get, wait, restart, step, run, Feed, feed_step, feed_run, Fits,
}
use yuclase.Topic.History.Simulation.{Agrees, step-Follows, run-Follows, get-Delivers, Fits-lt}
use yuclase.Topic.History.Beginning.{no_messages, made-Agrees}

-- No restart among the events.
abbrev pub IsSession : List Event → Type 0
IsSession [] = Unit
IsSession (restart ∷ es) = ⊥
IsSession (e ∷ es) = IsSession es

module _ {i : ℕ} (f : Feed) (s : On Topic) (a : Agrees i f s) where
  step-side :
      (e : Event) (es : List Event)
      → IsSession (e ∷ es)
      → Fits (length (log_bytes f.messages)) (e ∷ es)
      → side_files (step e s).1.disk ≡ side_files s.disk
  unfolding step
  step-side (put p) es h fits = (enqueue-Holds p s a.holds (Fits-lt _ es fits)).side
  step-side (get id n) es h fits = (get-Delivers f s a id n (Fits-lt _ es fits)).side
  step-side (wait t) es h fits = refl
  step-side restart es h fits = absurd h

tail-IsSession : (e : Event) (es : List Event) → IsSession (e ∷ es) → IsSession es
tail-IsSession (put p) es h = h
tail-IsSession (get id n) es h = h
tail-IsSession (wait t) es h = h
tail-IsSession restart es h = absurd h

-- Nothing is written to the files of the index and of the catalog.
run-side :
    {i : ℕ} (es : List Event) (f : Feed) (s : On Topic)
    → Agrees i f s
    → IsSession es
    → Fits (length (log_bytes f.messages)) es
    → side_files (run es s).1.disk ≡ side_files s.disk
unfolding run
run-side [] f s a h fits = refl
run-side (e ∷ es) f s a h fits =
    let ((same, b), g) = step-Follows e es f s a fits in
    run-side es (feed_step e f).1 (step e s).1 b (tail-IsSession e es h) g
    ∙ step-side f s a e es h fits

-- What `NewTopic` and then `LoadTopic` make of a directory, when the program ends after the events
-- `es` without a `Close`.
pub record Forgets (name : List ℕ) (config : Config) (d : Disk) (es : List Event) : Type 0 where
  pub topic : On Topic
  pub created : new_topic name config d ≡ (ok topic.self, topic.disk)
  pub again : On Topic
  pub loads : load_topic true name config (run es topic).1.disk ≡ (ok again.self, again.disk)
  pub agrees :
      Agrees d.next_inode (record (feed_run es (no_messages d.now)).1 { had = λ id. 0 }) again

module _ (name : List ℕ) (config : Config) (d : Disk) (h : IsEmpty d) (k : ℕ)
    (interval : config.storage.index_interval ≡ pos (suc k)) (clock : IsInt64 d.now) where
  -- In an empty directory of an unfailing disk, for a name that is not empty and an interval of the
  -- index above zero, a topic that `NewTopic` makes serves any sequence of `Enqueue`s, `Dequeue`s
  -- and waits, and the program ends without a `Close`: `LoadTopic` then gives an open topic with all
  -- of the messages in order, of which no consumer has had one. The messages must stay below
  -- 2 ^ 32 bytes in all, and the times must be int64 values.
  pub new_topic-Forgets :
      (es : List Event)
      → bytes_eq name [] ≡ false
      → IsSession es
      → Fits 0 es
      → Forgets name config d es
  unfolding log_bytes loaded all_bytes get_offset lookup
  new_topic-Forgets es named session fits =
      let s = made name config d in
      let a = made-Agrees name config d h k interval clock in
      let t = (run es s).1 in
      let b = (run-Follows es (no_messages d.now) s a fits).1 in
      let side = run-side es (no_messages d.now) s a session fits in
      let r =
        crash-Recovers t b.holds [] [] name config k interval (ap (λ p. p.0) side) tt
          (ap (λ p. loaded p.1) side ∙ ap loaded h.no_catalog) in
      record {
        topic = s;
        created = new_topic_lem name config d h named;
        again = r.again;
        loads = r.loads;
        agrees = record {
          holds = r.holds;
          clock = r.now ∙ b.clock;
          within = λ id. omega arith;
          read = λ id.
              ap (λ m. get_offset id (record { consumers = m; dirty = false })) r.old_consumers;
        };
      }
