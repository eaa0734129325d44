-- ===== src/Protocol/Request/Serving.antt =====
-- internal/network/server.go: a line of the words of a request is the queue's method and one reply.
use yuclase.Base.{
  ℕ, suc, Bool, true, false, List, [], ◌∷◌, ◌++◌, map, length, append_assoc, append-nil, bytes_eq,
  ◌≡◌, refl, sym, ap, ◌∙◌, if◌then◌else◌,
}
use yuclase.Base.Int64.{ℤ, pos}
use yuclase.Base.Bytes.{codes, decimal, decimal_ℤ}
use yuclase.Base.Text.{to_upper, join}
use yuclase.Base.Text.Words.{trim_space-join, join_first}
use yuclase.Base.Scanner.Lines.{parse_int-decimal_ℤ}
use yuclase.Base.Exec.{
  text, Result, ok, err, panic, deadlock, stuck, wrap_result, bind_result, pure, raise, wrapping,
  ◌>>=◌,
}
use yuclase.Storage.Log.Writer.{LogEntry}
use yuclase.Topic.State.{TopicStats}
use yuclase.Queue.State.{Host, QueueM}
use yuclase.Queue.Topics.{
  QueueStats, enqueue, dequeue, update_consumer_offset, get_consumer_offset, create_topic,
  delete_topic, list_topics, topic_exists, get_queue_stats, get_topic_stats, list_consumers,
}
use yuclase.Server.Session.{
  Session, on_queue, written, send_response, error_reply, bulk_reply, bulk_replies, array_reply,
  array_header, integer_reply,
}
use yuclase.Server.Commands.{
  execute_command, messages_reply, queue_stats_reply, topic_stats_reply, help_lines, handle_enqueue,
  handle_listen, handle_offset, set_to, handle_topics, handle_stats, handle_consumers,
  handle_create, handle_delete, handle_ping, handle_help,
}
use yuclase.Server.Lines.{parse_command, answered, handle_line}
use yuclase.Server.Lines.Words.{parse_command-join}
use yuclase.Server.Lines.Replies.{send_response_lem, refused_lem, handle_line_lem}
use yuclase.Protocol.Reply.{bulk, number, Reply, status, one, many, items_bytes, reply_bytes}
use yuclase.Protocol.Request.{
  Request, put, listen, offset_of, set_offset, topics, stats, stats_of, consumers_of, create,
  delete, ping, echo, help, name_of, arguments, OffsetFits, IsRequest, line_of, bulks, queue_items,
  topic_items, perform,
}

-- The queue as the request leaves it, and one reply to it, a value or an error.
abbrev pub replied : Session → Result Reply × Host → Result (Unit {0}) × Session
replied s (ok r, h) = (ok tt, written (reply_bytes r) (record s { host = h }))
replied s (err e, h) = (ok tt, written (error_reply e) (record s { host = h }))
replied s (panic, h) = (panic, record s { host = h })
replied s (deadlock, h) = (deadlock, record s { host = h })
replied s (stuck, h) = (stuck, record s { host = h })

module _ (s : Session) (works : s.broken ≡ false) where
  module _ {A : Type 0} (f : A → Reply) (g : A → List ℕ)
      (same : (a : A) → g a ≡ reply_bytes (f a)) where
    -- A handler that sends what a method of the queue returned.
    sends_lem :
        (r : Result A) (h : Host)
        → answered (bind_result r (λ a. send_response (g a)) (record s { host = h }))
          ≡ replied s (bind_result r (λ a. pure (f a)) h)
    unfolding answered
    sends_lem (ok a) h =
        ap answered (send_response_lem (record s { host = h }) (g a) works)
        ∙ ap (λ b. (ok tt, written b (record s { host = h }))) (same a)
    sends_lem (err e) h = refused_lem (record s { host = h }) e works
    sends_lem panic h = refl
    sends_lem deadlock h = refl
    sends_lem stuck h = refl

bulk_replies_lem : (ss : List (List ℕ)) → bulk_replies ss ≡ items_bytes (map bulk ss)
unfolding bulk_replies
bulk_replies_lem [] = refl
bulk_replies_lem (s ∷ ss) = ap (λ t. bulk_reply s ++ t) (bulk_replies_lem ss)

length-map {ℓ κ} :
    {A : Type ℓ} {B : Type κ} (f : A → B) (xs : List A) → length (map f xs) ≡ length xs
length-map f [] = refl
length-map f (x ∷ xs) = ap suc (length-map f xs)

array_lem : (ss : List (List ℕ)) → array_reply ss ≡ reply_bytes (bulks ss)
array_lem ss =
    ap (λ t. array_header (length ss) ++ t) (bulk_replies_lem ss)
    ∙ ap (λ n. array_header n ++ items_bytes (map bulk ss)) (sym (length-map bulk ss))

messages_lem :
    (ms : List LogEntry) → messages_reply ms ≡ reply_bytes (bulks (map (λ m. m.payload) ms))
unfolding decimal
messages_lem [] = refl
messages_lem (m ∷ ms) =
    ap (λ n. array_header n ++ bulk_replies (map (λ x. x.payload) (m ∷ ms)))
      (sym (length-map (λ x. x.payload) (m ∷ ms)))
    ∙ array_lem (map (λ x. x.payload) (m ∷ ms))

six :
    (h a b c d e f : List ℕ)
    → h ++ (a ++ b) ++ (c ++ d) ++ (e ++ f) ≡ h ++ (a ++ (b ++ (c ++ (d ++ (e ++ (f ++ []))))))
six h a b c d e f = simp (append_assoc, append-nil)

eight :
    (h a b c d e f g i : List ℕ)
    → h ++ a ++ b ++ (c ++ d) ++ (e ++ f) ++ (g ++ i)
      ≡ h ++ (a ++ (b ++ (c ++ (d ++ (e ++ (f ++ (g ++ (i ++ []))))))))
eight h a b c d e f g i = simp (append_assoc, append-nil)

queue_stats_lem : (q : QueueStats) → queue_stats_reply q ≡ reply_bytes (many (queue_items q))
queue_stats_lem q =
    six (array_header 6) (bulk_reply (codes "topic_count")) (integer_reply (pos q.topic_count))
      (bulk_reply (codes "total_messages")) (integer_reply q.total_messages)
      (bulk_reply (codes "total_size")) (integer_reply q.total_size)

topic_stats_lem : (t : TopicStats) → topic_stats_reply t ≡ reply_bytes (many (topic_items t))
topic_stats_lem t =
    eight (array_header 8) (bulk_reply (codes "name")) (bulk_reply t.name)
      (bulk_reply (codes "message_count")) (integer_reply t.message_count)
      (bulk_reply (codes "size")) (integer_reply t.size) (bulk_reply (codes "consumers"))
      (integer_reply (pos t.consumers))

module _ (s : Session) (works : s.broken ≡ false) where
  abbrev value : ℤ → Reply
  value n = one (number n)

  abbrev texts : List LogEntry → Reply
  texts ms = bulks (map (λ m. m.payload) ms)

  listen_lem :
      (topic id : List ℕ) (r : Result Bool) (h : Host)
      → answered (
          bind_result r
            (λ exists.
              if exists
              then (wrapping (codes "failed to dequeue") (on_queue (dequeue topic id))
                  >>= λ messages. send_response (messages_reply messages))
              else raise (text (codes "topic " ++ topic ++ codes " does not exist")))
            (record s { host = h }))
        ≡ replied s (
            bind_result r
              (λ exists.
                if exists
                then (wrapping (codes "failed to dequeue") (dequeue topic id) >>= λ messages.
                    pure (texts messages))
                else raise (text (codes "topic " ++ topic ++ codes " does not exist")))
              h)
  unfolding answered
  listen_lem topic id (ok true) h =
      let q = dequeue topic id h in
      sends_lem (record s { host = h }) works texts messages_reply messages_lem
        (wrap_result (codes "failed to dequeue") q.0) q.1
  listen_lem topic id (ok false) h =
      refused_lem (record s { host = h })
        (text (codes "topic " ++ topic ++ codes " does not exist")) works
  listen_lem topic id (err e) h = refused_lem (record s { host = h }) e works
  listen_lem topic id panic h = refl
  listen_lem topic id deadlock h = refl
  listen_lem topic id stuck h = refl

  status_lem :
      (c : List ℕ) (m : QueueM (Unit {0}))
      → answered ((wrapping c (on_queue m) >>= λ _. send_response (codes "+OK" ++ 13 ∷ 10 ∷ [])) s)
        ≡ replied s ((wrapping c m >>= λ _. pure (status (codes "OK"))) s.host)
  status_lem c m =
      sends_lem s works (λ _. status (codes "OK")) (λ _. codes "+OK" ++ 13 ∷ 10 ∷ []) (λ u. refl)
        (wrap_result c (m s.host).0) (m s.host).1

  value_lem :
      (c : List ℕ) (m : QueueM ℤ)
      → answered ((wrapping c (on_queue m) >>= λ n. send_response (integer_reply n)) s)
        ≡ replied s ((wrapping c m >>= λ n. pure (value n)) s.host)
  value_lem c m =
      sends_lem s works value integer_reply (λ n. refl) (wrap_result c (m s.host).0) (m s.host).1

  names_lem :
      (r : Result (List (List ℕ))) (h : Host)
      → answered (bind_result r (λ ss. send_response (array_reply ss)) (record s { host = h }))
        ≡ replied s (bind_result r (λ ss. pure (bulks ss)) h)
  names_lem = sends_lem s works bulks array_reply array_lem

  -- The handler of the request.
  handled_lem :
      (r : Request)
      → OffsetFits r
      → answered (execute_command (name_of r) (arguments r) s) ≡ replied s (perform r s.host)
  unfolding execute_command bytes_eq handle_enqueue handle_listen handle_offset handle_topics
      handle_stats handle_consumers handle_create handle_delete handle_ping handle_help
  handled_lem (put topic word words) f =
      value_lem (codes "failed to enqueue") (enqueue topic (join (word ∷ words)))
  handled_lem (listen topic id) f = let q = topic_exists topic s.host in listen_lem topic id q.0 q.1
  handled_lem (offset_of topic id) f =
      value_lem (codes "failed to get offset") (get_consumer_offset topic id)
  handled_lem (set_offset topic id offset) f =
      ap (λ r. answered (set_to topic id (decimal_ℤ offset) r s)) (parse_int-decimal_ℤ offset f)
      ∙ status_lem (codes "failed to update offset") (update_consumer_offset topic id offset)
  handled_lem topics f = let q = list_topics s.host in names_lem q.0 q.1
  handled_lem stats f =
      let q = get_queue_stats s.host in
      sends_lem s works (λ x. many (queue_items x)) queue_stats_reply queue_stats_lem
        (wrap_result (codes "failed to get queue stats") q.0) q.1
  handled_lem (stats_of topic) f =
      let q = get_topic_stats topic s.host in
      sends_lem s works (λ x. many (topic_items x)) topic_stats_reply topic_stats_lem
        (wrap_result (codes "failed to get topic stats") q.0) q.1
  handled_lem (consumers_of topic) f =
      let q = list_consumers topic s.host in
      names_lem (wrap_result (codes "failed to list consumers") q.0) q.1
  handled_lem (create topic) f = status_lem (codes "failed to create topic") (create_topic topic)
  handled_lem (delete topic) f = status_lem (codes "failed to delete topic") (delete_topic topic)
  handled_lem ping f =
      sends_lem s works status (λ t. 43 ∷ t ++ 13 ∷ 10 ∷ []) (λ t. refl) (ok (codes "PONG")) s.host
  handled_lem (echo word) f =
      sends_lem s works (λ t. one (bulk t)) bulk_reply (λ t. refl) (ok word) s.host
  handled_lem help f = names_lem (ok help_lines) s.host

-- The names are in upper case.
upper_name : (r : Request) → to_upper (name_of r) ≡ name_of r
unfolding to_upper
upper_name (put topic word words) = refl
upper_name (listen topic id) = refl
upper_name (offset_of topic id) = refl
upper_name (set_offset topic id offset) = refl
upper_name topics = refl
upper_name stats = refl
upper_name (stats_of topic) = refl
upper_name (consumers_of topic) = refl
upper_name (create topic) = refl
upper_name (delete topic) = refl
upper_name ping = refl
upper_name (echo word) = refl
upper_name help = refl

name_first : (r : Request) → (c : ℕ) × (cs : List ℕ) × (name_of r ≡ c ∷ cs)
name_first (put topic word words) = (69, codes "NQUEUE", refl)
name_first (listen topic id) = (76, codes "ISTEN", refl)
name_first (offset_of topic id) = (79, codes "FFSET", refl)
name_first (set_offset topic id offset) = (79, codes "FFSET", refl)
name_first topics = (84, codes "OPICS", refl)
name_first stats = (83, codes "TATS", refl)
name_first (stats_of topic) = (83, codes "TATS", refl)
name_first (consumers_of topic) = (67, codes "ONSUMERS", refl)
name_first (create topic) = (67, codes "REATE", refl)
name_first (delete topic) = (68, codes "ELETE", refl)
name_first ping = (80, codes "ING", refl)
name_first (echo word) = (80, codes "ING", refl)
name_first help = (72, codes "ELP", refl)

-- A line that is not empty and that white space does not surround is parsed and executed.
first_of : (r : Request) → (c : ℕ) × (t : List ℕ) × (line_of r ≡ c ∷ t)
first_of r =
    let (c, cs, first) = name_first r in
    let (t, same) = join_first c cs (arguments r) in
    (c, t, ap (λ n. join (n ∷ arguments r)) first ∙ same)

pub handle_line-perform :
    (r : Request) (s : Session)
    → IsRequest r
    → s.broken ≡ false
    → handle_line (line_of r) s ≡ replied s (perform r s.host)
handle_line-perform r s h works =
    let (c, t, first) = first_of r in
    handle_line_lem (line_of r) c t (to_upper (name_of r)) (arguments r) s
      (trim_space-join (name_of r) (arguments r) h.words ∙ first)
      (ap parse_command (sym first) ∙ parse_command-join (name_of r) (arguments r) h.words)
    ∙ ap (λ n. answered (execute_command n (arguments r) s)) (upper_name r)
    ∙ handled_lem s works r h.offsets
