-- ===== src/Protocol/Delivery.antt =====
-- internal/network: a message on its way from one client's `Enqueue` to another's `Listen`.
pub mod Conversation
use yuclase.Base.{
  ℕ, ◌+◌, ◌^◌, ◌<◌, Bool, true, false, Option, some, List, [], ◌∷◌, ◌++◌, append_assoc, map, take,
  length, bytes_eq_refl, if◌then◌else◌, ◌≡◌, refl, sym, ap, ◌∙◌,
}
use mathlib.Core.Path.{subst}
use yuclase.Base.Int64.{ℤ, pos}
use yuclase.Base.Bytes.{codes, decimal}
use yuclase.Base.Text.{join}
use yuclase.Base.Assoc.{lookup, lookup-insert}
use yuclase.Base.Exec.{Result, ok, text, wrap_result, bind_result, pure, raise, wrapping, ◌>>=◌}
use yuclase.Storage.Disk.{On}
use yuclase.Storage.Log.Writer.{LogEntry}
use yuclase.Storage.Log.Messages.Sequence.{Message, log_bytes, entries_at}
use yuclase.Storage.Catalog.Consumers.{get_offset}
use yuclase.Topic.State.{Topic}
use yuclase.Topic.Messages.{enqueue as topic_enqueue, dequeue as topic_dequeue}
use yuclase.Topic.Messages.Delivery.{Holds, HasRead, new_message, enqueue-Holds}
use yuclase.Topic.Messages.Dequeued.{dequeue-Delivers}
use yuclase.Queue.State.{free, reading, writing, Host, with_lock, release, shared_from, put_topic}
use yuclase.Queue.Topics.{enqueue, dequeue, topic_exists, is_some}
use yuclase.Queue.Topics.Routing.{enqueue_found, dequeue_found}
use yuclase.Protocol.Reply.{Reply, one, number, bulk, many}
use yuclase.Protocol.Request.{put, listen, bulks, perform}

-- The queue can be used, and its topic `name` is `t`, which holds the messages `ms`.
pub record QueueHolds (name : List ℕ) (t : On Topic) (ms : List Message) (h : Host) : Type 0 where
  pub is_free : h.self.lock ≡ free
  pub is_open : h.self.closed ≡ false
  pub found : lookup name h.self.topics ≡ some t
  pub segment : ℕ
  pub holds : Holds segment ms t

stored_lem :
    (name : List ℕ) (t : On Topic) (h : Host)
    → lookup name (put_topic name t h).self.topics ≡ some t
stored_lem name t h =
    lookup-insert name name t h.self.topics
    ∙ ap (λ b. if b then some t else lookup name h.self.topics) (bytes_eq_refl name)

abbrev offset_reply : Result ℤ × Host → Result Reply × Host
offset_reply (r, h) =
    bind_result (wrap_result (codes "failed to enqueue") r) (λ n. pure (one (number n))) h

module _ (name word : List ℕ) (words : List (List ℕ)) (t : On Topic) (ms : List Message)
    (h : Host) where
  abbrev put_message : List ℕ
  put_message = join (word ∷ words)

  -- A put on such a queue.
  pub perform-put :
      QueueHolds name t ms h
      → length (log_bytes ms) + (12 + length put_message) < 2 ^ 32
      → ((perform (put name word words) h).0 ≡ ok (one (number (pos (length (log_bytes ms))))))
        × QueueHolds name
            (topic_enqueue put_message t).1
            (ms ++ new_message put_message t ∷ [])
            (perform (put name word words) h).1
        × ((topic_enqueue put_message t).1.self.catalog ≡ t.self.catalog)
  perform-put q fits =
      let stored = enqueue-Holds put_message t q.holds fits in
      let t' = (topic_enqueue put_message t).1 in
      let h' = put_topic name t' (with_lock writing h) in
      let done : enqueue name put_message h
          ≡ (ok (pos (length (log_bytes ms))), with_lock free h') =
        enqueue_found name t h q.is_free q.is_open q.found put_message
        ∙ ap (λ r. release (r, h')) stored.returned in
      let all : perform (put name word words) h
          ≡ (ok (one (number (pos (length (log_bytes ms))))), with_lock free h') =
        ap offset_reply done in
      (
        ap (λ r. r.0) all,
        subst (QueueHolds name t' (ms ++ new_message put_message t ∷ [])) (sym (ap (λ r. r.1) all))
            (record {
              is_free = refl;
              is_open = q.is_open;
              found = stored_lem name t' (with_lock writing h);
              segment = q.segment;
              holds = stored.holds;
            }),
        stored.same_catalog,
      )

payloads_at :
    (o : ℕ) (ms : List Message) → map (λ e. e.payload) (entries_at o ms) ≡ map (λ m. m.payload) ms
unfolding entries_at
payloads_at o [] = refl
payloads_at o (m ∷ ms) = ap (λ t. m.payload ∷ t) (payloads_at (o + (12 + length m.payload)) ms)

-- What the listener gets for the messages `ms`.
abbrev pub payloads : List Message → Reply
payloads ms = bulks (map (λ m. m.payload) ms)

abbrev messages_reply : Result (List LogEntry) × Host → Result Reply × Host
messages_reply (r, h) =
    bind_result (wrap_result (codes "failed to dequeue") r)
      (λ ms. pure (bulks (map (λ m. m.payload) ms))) h

abbrev listened : List ℕ → List ℕ → Result Bool × Host → Result Reply × Host
listened name id (r, h) =
    bind_result r
      (λ exists.
        if exists
        then (wrapping (codes "failed to dequeue") (dequeue name id) >>= λ messages.
            pure (bulks (map (λ m. m.payload) messages)))
        else raise (text (codes "topic " ++ name ++ codes " does not exist")))
      h

module _ (name id : List ℕ) (t : On Topic) (seen rest : List Message) (h : Host) where
  exists_lem :
      QueueHolds name t (seen ++ rest) h
      → topic_exists name h ≡ (ok true, with_lock free (with_lock reading h))
  unfolding topic_exists
  exists_lem q =
      ap (λ l. shared_from l (λ s. (ok (is_some (lookup name s.self.topics)), s)) h) q.is_free
      ∙ ap (λ o. (ok (is_some o), with_lock free (with_lock reading h))) q.found

  -- A listen on such a queue by a consumer that has had `seen`.
  pub perform-listen :
      QueueHolds name t (seen ++ rest) h
      → HasRead id seen t
      → length (log_bytes (seen ++ rest)) < 2 ^ 32
      → ((perform (listen name id) h).0 ≡ ok (payloads (take 10 rest)))
        × QueueHolds name
            (topic_dequeue id (pos 10) t).1
            (seen ++ rest)
            (perform (listen name id) h).1
        × HasRead id (seen ++ take 10 rest) (topic_dequeue id (pos 10) t).1
  unfolding dequeue
  perform-listen q had fits =
      let batch = take 10 rest in
      let got = dequeue-Delivers id seen rest 10 t q.holds had fits in
      let t' = (topic_dequeue id (pos 10) t).1 in
      let h1 = with_lock free (with_lock reading h) in
      let h' = with_lock free (put_topic name t' (with_lock reading h1)) in
      let entries = entries_at (length (log_bytes seen)) batch in
      let taken : dequeue name id h1 ≡ (ok entries, h') =
        dequeue_found name t h1 refl q.is_open q.found id (pos 10)
        ∙ ap (λ r. release (r, put_topic name t' (with_lock reading h1))) got.returned in
      let all : perform (listen name id) h ≡ (ok (payloads batch), h') =
        ap (listened name id) (exists_lem q)
        ∙ ap messages_reply taken
        ∙ ap (λ ps. (ok (bulks ps), h')) (payloads_at (length (log_bytes seen)) batch) in
      (
        ap (λ r. r.0) all,
        subst (QueueHolds name t' (seen ++ rest)) (sym (ap (λ r. r.1) all)) (record {
          is_free = refl;
          is_open = q.is_open;
          found = stored_lem name t' (with_lock reading h1);
          segment = q.segment;
          holds = got.holds;
        }),
        got.moves,
      )
