-- ===== src/Topic/History/Simulation.antt =====
-- Every run of a topic of pkg/queue/topic.go agrees with its feed.
use yuclase.Base.{
  ℕ, ◌+◌, ◌^◌, ◌<◌, ◌≤◌, ◌≡◌, refl, sym, ap, ◌∙◌, false, List, [], ◌∷◌, ◌++◌, length, length-append,
  length-take, length-drop, take, drop, take-append-drop, take_append_short, take-length-take,
  take_add, bytes_eq, bytes_eq_sound, Bool-cases, inl, inr, arith,
}
use mathlib.Core.Path.{subst, ap₂}
use yuclase.Base.Int64.{pos}
use yuclase.Base.Exec.{ok}
use yuclase.Storage.Disk.{On}
use yuclase.Storage.Log.Messages.Sequence.{Message, log_bytes}
use yuclase.Storage.Catalog.Consumers.{get_offset}
use yuclase.Topic.State.{Topic}
use yuclase.Topic.Messages.{enqueue, dequeue}
use yuclase.Topic.Messages.Dequeued.{Delivers}
use yuclase.Topic.Messages.Delivery.{Holds, HasRead, enqueue-Holds}
use yuclase.Topic.Messages.Dequeued.{
  dequeue-Delivers, length-log_bytes-append, length-log_bytes_cons, length-log_bytes_nil,
}
use yuclase.Topic.Open.{close}
use yuclase.Topic.Open.Restart.{close-Restarts}
use yuclase.Topic.History.{
  Event, put, get, wait, restart, Outcome, sent, received, restarted, loaded_again, step, run, Feed,
  feed_step, feed_run, Fits,
}

-- The topic holds the messages of the feed, and each consumer stands where the feed has it.
pub record Agrees (i : ℕ) (f : Feed) (s : On Topic) : Type 0 where
  pub holds : Holds i f.messages s
  pub clock : s.disk.now ≡ f.clock
  pub within : (id : List ℕ) → f.had id ≤ length f.messages
  pub read : (id : List ℕ) → HasRead id (take (f.had id) f.messages) s

-- One event on both sides.
abbrev pub Follows : ℕ → Outcome × Feed → Outcome × On Topic → Type 0
Follows i p q = (q.0 ≡ p.0) × Agrees i p.1 q.1

module _ {i : ℕ} (f : Feed) (s : On Topic) (a : Agrees i f s) where
  put-Follows :
      (p : List ℕ)
      → length (log_bytes f.messages) + (12 + length p) < 2 ^ 32
      → Follows i (feed_step (put p) f) (step (put p) s)
  unfolding step feed_step
  put-Follows p fits =
      let e = enqueue-Holds p s a.holds fits in
      let m : Message = record { timestamp = f.clock; payload = p } in
      (
        ap sent e.returned,
        record {
          holds =
              subst
                (λ t.
                  Holds i (f.messages ++ record { timestamp = t; payload = p } ∷ [])
                    (enqueue p s).1)
                a.clock e.holds;
          clock = e.now ∙ a.clock;
          within = λ id. let h = a.within id in omega (arith, length-append f.messages (m ∷ []));
          read = λ id.
              ap (get_offset id) e.same_catalog
              ∙ a.read id
              ∙ ap (λ t. pos (length (log_bytes t)))
                  (sym (take_append_short (f.had id) f.messages (m ∷ []) (a.within id)));
        },
      )

  wait-Follows : (t : ℕ) → t < 2 ^ 63 → Follows i (feed_step (wait t) f) (step (wait t) s)
  unfolding step feed_step
  wait-Follows t small =
      let h = a.holds in
      (
        refl,
        record {
          holds = record {
            held = h.held;
            is_open = h.is_open;
            log = record {
              handle = h.log.handle;
              writer = h.log.writer;
              size = h.log.size;
              segment = h.log.segment;
              on_disk = record {
                linked = h.log.on_disk.linked;
                latest = h.log.on_disk.latest;
                content = h.log.on_disk.content;
                healthy = h.log.on_disk.healthy;
              };
            };
            messages = h.messages;
            clock = small;
            interval_pred = h.interval_pred;
            interval = h.interval;
            consumers = h.consumers;
            stored = h.stored;
            saved = record {
              index = record {
                entries = h.saved.index.entries;
                file_open = h.saved.index.file_open;
                same = h.saved.index.same;
              };
              catalog = h.saved.catalog;
            };
          };
          clock = refl;
          within = a.within;
          read = a.read;
        },
      )

  abbrev seen : List ℕ → List Message
  seen id = take (f.had id) f.messages

  abbrev rest : List ℕ → List Message
  rest id = drop (f.had id) f.messages

  -- The messages that a consumer has had after a batch.
  batched :
      (id : List ℕ) (n : ℕ)
      → take (f.had id + length (take n (rest id))) f.messages ≡ seen id ++ take n (rest id)
  batched id n =
      take_add (f.had id) (length (take n (rest id))) f.messages
      ∙ ap (λ t. seen id ++ t) (take-length-take n (rest id))

  pub get-Delivers :
      (id : List ℕ) (n : ℕ)
      → length (log_bytes f.messages) < 2 ^ 32
      → Delivers i (seen id ++ rest id) id (seen id) (take n (rest id)) s (dequeue id (pos n) s)
  get-Delivers id n fits =
      let whole = take-append-drop (f.had id) f.messages in
      dequeue-Delivers id (seen id) (rest id) n s (subst (λ t. Holds i t s) (sym whole) a.holds)
        (a.read id) (subst (λ t. length (log_bytes t) < 2 ^ 32) (sym whole) fits)

  get-Follows :
      (id : List ℕ) (n : ℕ)
      → length (log_bytes f.messages) < 2 ^ 32
      → Follows i (feed_step (get id n) f) (step (get id n) s)
  unfolding step feed_step
  get-Follows id n fits =
      let whole = take-append-drop (f.had id) f.messages in
      let d = get-Delivers id n fits in
      let t = (dequeue id (pos n) s).1 in
      (
        ap received d.returned,
        record {
          holds = subst (λ u. Holds i u t) whole d.holds;
          clock = d.now ∙ a.clock;
          within = λ j. elim (Bool-cases (bytes_eq id j)) [
            | inl same ↦ rw same (
                let h = a.within id in
                omega (arith, length-take n (rest id), length-drop (f.had id) f.messages))
            | inr other ↦ rw other (a.within j)
          ];
          read = λ j. elim (Bool-cases (bytes_eq id j)) [
            | inl same ↦ rw same (
                subst (λ k. HasRead k (take (f.had id + length (take n (rest id))) f.messages) t)
                  (bytes_eq_sound id j same)
                  (d.moves ∙ ap (λ u. pos (length (log_bytes u))) (sym (batched id n))))
            | inr other ↦ rw other (d.others j other ∙ a.read j)
          ];
        },
      )

  restart-Follows : Follows i (feed_step restart f) (step restart s)
  unfolding step feed_step get_offset
  restart-Follows =
      let r = close-Restarts s a.holds in
      let (c, t) = close s in
      subst (Follows i (restarted (ok tt), f))
        (sym (ap (loaded_again c t) r.loads ∙ ap (λ q. (restarted q, r.again)) r.returned))
        (
          refl,
          record {
            holds = r.holds;
            clock = r.now ∙ a.clock;
            within = a.within;
            read = λ id.
                ap (λ m. get_offset id (record { consumers = m; dirty = false })) r.same_consumers
                ∙ a.read id;
          },
        )

pub Fits-lt : (n : ℕ) (es : List Event) → Fits n es → n < 2 ^ 32
Fits-lt n [] h = h
Fits-lt n (put p ∷ es) h = let g = Fits-lt (n + (12 + length p)) es h in omega arith
Fits-lt n (get id m ∷ es) h = Fits-lt n es h
Fits-lt n (wait t ∷ es) h = Fits-lt n es h.1
Fits-lt n (restart ∷ es) h = Fits-lt n es h

length-put :
    (f : Feed) (p : List ℕ)
    → length (log_bytes (feed_step (put p) f).1.messages)
      ≡ length (log_bytes f.messages) + (12 + length p)
unfolding feed_step log_bytes
length-put f p =
    let m : Message = record { timestamp = f.clock; payload = p } in
    omega (
      arith,
      length-log_bytes-append f.messages (m ∷ []),
      length-log_bytes_cons m [],
      length-log_bytes_nil,
    )

pub step-Follows :
    {i : ℕ} (e : Event) (es : List Event) (f : Feed) (s : On Topic)
    → Agrees i f s
    → Fits (length (log_bytes f.messages)) (e ∷ es)
    → Follows i (feed_step e f) (step e s) × Fits (length (log_bytes (feed_step e f).1.messages)) es
step-Follows (put p) es f s a h =
    (put-Follows f s a p (Fits-lt _ es h), subst (λ n. Fits n es) (sym (length-put f p)) h)
step-Follows (get id n) es f s a h =
    (get-Follows f s a id n (Fits-lt _ es h), unfold feed_step in h)
step-Follows (wait t) es f s a h = (wait-Follows f s a t h.0, unfold feed_step in h.1)
step-Follows restart es f s a h = (restart-Follows f s a, unfold feed_step in h)

-- From a topic that agrees with a feed, every sequence of enqueues, dequeues, waits and restarts
-- that fits in the segment has the outcomes of the feed and ends in agreement with it.
pub run-Follows :
    {i : ℕ} (es : List Event) (f : Feed) (s : On Topic)
    → Agrees i f s
    → Fits (length (log_bytes f.messages)) es
    → ((run es s).0 ≡ (feed_run es f).0) × Agrees i (feed_run es f).1 (run es s).1
unfolding run feed_run
run-Follows [] f s a h = (refl, a)
run-Follows (e ∷ es) f s a h =
    let ((same, b), g) = step-Follows e es f s a h in
    let (later, c) = run-Follows es (feed_step e f).1 (step e s).1 b g in (ap₂ (◌∷◌) same later, c)
