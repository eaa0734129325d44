-- ===== src/Queue/Topics/Routing.antt =====
-- The methods of pkg/queue/queue.go reach the topic of their name.
use yuclase.Base.{ℕ, ◌≡◌, refl, sym, ap, ◌∙◌, false, some, List, ◌++◌, if◌then◌else◌, bytes_eq_refl}
use mathlib.Core.Path.{subst}
use yuclase.Base.Int64.{ℤ}
use yuclase.Base.Bytes.{codes}
use yuclase.Base.Exec.{Result, ok, err, deadlock, panic, stuck, text, ◌>>◌, wrapping}
use yuclase.Base.Assoc.{lookup, lookup-insert}
use yuclase.Storage.Disk.{On}
use yuclase.Topic.State.{Topic, TopicM}
use yuclase.Topic.Messages.{enqueue as topic_enqueue, dequeue as topic_dequeue}
use yuclase.Queue.State.{
  free, reading, writing, Host, QueueM, with_lock, release, exclusive_from, shared_from, while_open,
  with_topic, on_topic, put_topic,
}
use yuclase.Queue.Topics.{get_or_create_topic, or_create, enqueue, dequeue_with_limit}

module _ {A : Type 0} (name : List ℕ) (m : TopicM A) (t : On Topic) (s : Host) where
  with_topic_found :
      lookup name s.self.topics ≡ some t → with_topic name m s ≡ ((m t).0, put_topic name (m t).1 s)
  unfolding with_topic on_topic
  with_topic_found found = ap (λ o. on_topic name m o s) found

  while_open_found :
      s.self.closed ≡ false
      → lookup name s.self.topics ≡ some t
      → while_open (with_topic name m) s ≡ ((m t).0, put_topic name (m t).1 s)
  while_open_found is_open found =
      ap (λ b. if b then (err (text (codes "queue is closed")), s) else with_topic name m s) is_open
      ∙ with_topic_found found

module _ (name : List ℕ) (t : On Topic) (s : Host) (is_free : s.self.lock ≡ free)
    (is_open : s.self.closed ≡ false) (found : lookup name s.self.topics ≡ some t) where
  -- The two methods, by the method of the topic.
  pub dequeue_found :
      (id : List ℕ) (n : ℤ)
      → dequeue_with_limit name id n s
        ≡ release (
          (topic_dequeue id n t).0,
          put_topic name (topic_dequeue id n t).1 (with_lock reading s),
        )
  unfolding dequeue_with_limit
  dequeue_found id n =
      let m = topic_dequeue id n in
      ap (λ l. shared_from l (while_open (with_topic name m)) s) is_free
      ∙ ap release (while_open_found name m t (with_lock reading s) is_open found)

  pub enqueue_found :
      (payload : List ℕ)
      → enqueue name payload s
        ≡ release (
          (topic_enqueue payload t).0,
          put_topic name (topic_enqueue payload t).1 (with_lock writing s),
        )
  unfolding enqueue get_or_create_topic
  enqueue_found payload =
      let m = topic_enqueue payload in
      let s' = with_lock writing s in
      let put = with_topic name m in
      let get = wrapping (codes "failed to get topic " ++ name) (get_or_create_topic name) in
      ap (λ l. exclusive_from l (while_open (get >> put)) s) is_free
      ∙ ap
          (λ b. release (if b then (err (text (codes "queue is closed")), s') else (get >> put) s'))
          is_open
      ∙ ap
          (λ o.
            release
              ((wrapping (codes "failed to get topic " ++ name) (or_create name o) >> put) s'))
          found
      ∙ ap release (with_topic_found name m t s' found)

module _ {A : Type 0} where
  -- A queue method returned what the method of the topic `t` returned, and the topic is what that
  -- method left.
  pub record Routes (name : List ℕ) (r : Result A × On Topic) (q : Result A × Host) : Type 0 where
    pub returned : q.0 ≡ r.0
    pub stored : lookup name q.1.self.topics ≡ some r.1

  release-Routes :
      {name : List ℕ} {r : Result A × On Topic} (q : Result A × Host)
      → Routes name r q
      → Routes name r (release q)
  release-Routes (ok a, s) h = record { returned = h.returned; stored = h.stored }
  release-Routes (err e, s) h = record { returned = h.returned; stored = h.stored }
  release-Routes (panic, s) h = record { returned = h.returned; stored = h.stored }
  release-Routes (deadlock, s) h = record { returned = h.returned; stored = h.stored }
  release-Routes (stuck, s) h = record { returned = h.returned; stored = h.stored }

module _ {A : Type 0} (name : List ℕ) (m : TopicM A) (t : On Topic) where
  with_topic-Routes :
      (s : Host) → lookup name s.self.topics ≡ some t → Routes name (m t) (with_topic name m s)
  unfolding with_topic on_topic
  with_topic-Routes s h =
      subst (λ o. Routes name (m t) (on_topic name m o s)) (sym h)
        (record {
          returned = refl;
          stored =
              lookup-insert name name (m t).1 s.self.topics
              ∙ ap (λ b. if b then some (m t).1 else lookup name s.self.topics)
                  (bytes_eq_refl name);
        })

  while_open-Routes :
      (q : QueueM A) (s : Host)
      → s.self.closed ≡ false
      → Routes name (m t) (q s)
      → Routes name (m t) (while_open q s)
  while_open-Routes q s h g =
      subst (λ b. Routes name (m t) (if b then (err (text (codes "queue is closed")), s) else q s))
        (sym h) g

module _ (name : List ℕ) (t : On Topic) (s : Host) where
  -- On an open queue whose lock is free, `DequeueWithLimit` of a topic in the map returns what the
  -- topic's `Dequeue` returns, and leaves the topic as that does.
  pub dequeue-Routes :
      (id : List ℕ) (n : ℤ)
      → s.self.lock ≡ free
      → s.self.closed ≡ false
      → lookup name s.self.topics ≡ some t
      → Routes name (topic_dequeue id n t) (dequeue_with_limit name id n s)
  unfolding dequeue_with_limit
  dequeue-Routes id n h is_open found =
      let m = topic_dequeue id n in
      let s' = with_lock reading s in
      subst (λ l. Routes name (m t) (shared_from l (while_open (with_topic name m)) s)) (sym h)
        (release-Routes (while_open (with_topic name m) s') (
          while_open-Routes name m t (with_topic name m) s' is_open
            (with_topic-Routes name m t s' found)))

  -- On an open queue whose lock is free, `Enqueue` to a topic in the map returns what the topic's
  -- `Enqueue` returns, and leaves the topic as that does.
  pub enqueue-Routes :
      (payload : List ℕ)
      → s.self.lock ≡ free
      → s.self.closed ≡ false
      → lookup name s.self.topics ≡ some t
      → Routes name (topic_enqueue payload t) (enqueue name payload s)
  unfolding enqueue get_or_create_topic
  enqueue-Routes payload h is_open found =
      let m = topic_enqueue payload in
      let s' = with_lock writing s in
      let put = with_topic name m in
      let get = wrapping (codes "failed to get topic " ++ name) (get_or_create_topic name) in
      subst (λ l. Routes name (m t) (exclusive_from l (while_open (get >> put)) s)) (sym h)
        (release-Routes (while_open (get >> put) s') (
          while_open-Routes name m t (get >> put) s' is_open (
            subst
              (λ o.
                Routes name (m t)
                  ((wrapping (codes "failed to get topic " ++ name) (or_create name o) >> put) s'))
              (sym found) (with_topic-Routes name m t s' found))))
