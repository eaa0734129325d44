-- ===== src/Server/Commands.antt =====
-- internal/network/server.go: one handler for each command.
use yuclase.Base.{ℕ, false, List, [], ◌∷◌, ◌++◌, map, length, bytes_eq, if◌then◌else◌}
use yuclase.Base.Int64.{ℤ, pos}
use yuclase.Base.Bytes.{codes}
use yuclase.Base.Text.{join, parse_int}
use yuclase.Base.Exec.{text, Result, ok, err, panic, deadlock, stuck, raise, wrapping, ◌>>=◌, ◌>>◌}
use yuclase.Storage.Log.Writer.{LogEntry}
use yuclase.Topic.State.{TopicStats}
use yuclase.Queue.Topics.{
  QueueStats, enqueue, dequeue, update_consumer_offset, get_consumer_offset, create_topic,
  delete_topic, list_topics, topic_exists, get_queue_stats, get_topic_stats, list_consumers,
}
use yuclase.Server.Session.{
  SessionM, on_queue, send_response, crlf, ok_reply, integer_reply, bulk_reply, array_reply,
  array_header, bulk_replies,
}

abbrev pub Handler : Type 0
Handler = List (List ℕ) → SessionM (Unit {0})

-- `handleEnqueue`
unfoldable pub handle_enqueue : Handler
handle_enqueue [] = raise (text (codes "ENQUEUE requires topic and message"))
handle_enqueue (topic_name ∷ []) = raise (text (codes "ENQUEUE requires topic and message"))
handle_enqueue (topic_name ∷ word ∷ words) =
    wrapping (codes "failed to enqueue") (on_queue (enqueue topic_name (join (word ∷ words))))
    >>= λ offset. send_response (integer_reply offset)

-- No messages are the reply `*0`, as the general case writes it.
abbrev pub messages_reply : List LogEntry → List ℕ
messages_reply [] = codes "*0" ++ crlf
messages_reply (e ∷ es) =
    array_header (length (e ∷ es)) ++ bulk_replies (map (λ x. x.payload) (e ∷ es))

-- `handleListen`
unfoldable pub handle_listen : Handler
handle_listen [] = raise (text (codes "LISTEN requires topic and consumer_id"))
handle_listen (topic_name ∷ []) = raise (text (codes "LISTEN requires topic and consumer_id"))
handle_listen (topic_name ∷ consumer_id ∷ args) = on_queue (topic_exists topic_name) >>= λ exists.
    if exists
    then (wrapping (codes "failed to dequeue") (on_queue (dequeue topic_name consumer_id))
        >>= λ messages. send_response (messages_reply messages))
    else raise (text (codes "topic " ++ topic_name ++ codes " does not exist"))

-- The parsed offset of an OFFSET command that sets it; `word` is its text.
abbrev pub set_to : List ℕ → List ℕ → List ℕ → Result ℤ → SessionM (Unit {0})
set_to topic_name consumer_id word (ok offset) =
    wrapping (codes "failed to update offset")
      (on_queue (update_consumer_offset topic_name consumer_id offset))
    >> send_response ok_reply
set_to topic_name consumer_id word (err e) = raise (text (codes "invalid offset: " ++ word))
set_to topic_name consumer_id word panic = λ s. (panic, s)
set_to topic_name consumer_id word deadlock = λ s. (deadlock, s)
set_to topic_name consumer_id word stuck = λ s. (stuck, s)

abbrev pub get_reply : List ℕ → List ℕ → SessionM (Unit {0})
get_reply topic_name consumer_id =
    wrapping (codes "failed to get offset") (on_queue (get_consumer_offset topic_name consumer_id))
    >>= λ offset. send_response (integer_reply offset)

-- `handleOffset`: three arguments set the offset, two or more than three get it.
unfoldable pub handle_offset : Handler
handle_offset [] = raise (text (codes "OFFSET requires topic and consumer_id"))
handle_offset (topic_name ∷ []) = raise (text (codes "OFFSET requires topic and consumer_id"))
handle_offset (topic_name ∷ consumer_id ∷ []) = get_reply topic_name consumer_id
handle_offset (topic_name ∷ consumer_id ∷ word ∷ []) =
    set_to topic_name consumer_id word (parse_int word)
handle_offset (topic_name ∷ consumer_id ∷ word ∷ more ∷ args) = get_reply topic_name consumer_id

-- `handleTopics`
unfoldable pub handle_topics : Handler
handle_topics args = on_queue list_topics >>= λ topics. send_response (array_reply topics)

-- A name and its number.
abbrev pub entry_reply : List ℕ → ℤ → List ℕ
entry_reply name n = bulk_reply name ++ integer_reply n

abbrev pub queue_stats_reply : QueueStats → List ℕ
queue_stats_reply stats =
    array_header 6
    ++ entry_reply (codes "topic_count") (pos stats.topic_count)
    ++ entry_reply (codes "total_messages") stats.total_messages
    ++ entry_reply (codes "total_size") stats.total_size

abbrev pub topic_stats_reply : TopicStats → List ℕ
topic_stats_reply stats =
    array_header 8
    ++ bulk_reply (codes "name")
    ++ bulk_reply stats.name
    ++ entry_reply (codes "message_count") stats.message_count
    ++ entry_reply (codes "size") stats.size
    ++ entry_reply (codes "consumers") (pos stats.consumers)

-- `handleStats`
unfoldable pub handle_stats : Handler
handle_stats [] =
    wrapping (codes "failed to get queue stats") (on_queue get_queue_stats) >>= λ stats.
    send_response (queue_stats_reply stats)
handle_stats (topic_name ∷ args) =
    wrapping (codes "failed to get topic stats") (on_queue (get_topic_stats topic_name))
    >>= λ stats. send_response (topic_stats_reply stats)

-- `handleConsumers`
unfoldable pub handle_consumers : Handler
handle_consumers [] = raise (text (codes "CONSUMERS requires topic"))
handle_consumers (topic_name ∷ args) =
    wrapping (codes "failed to list consumers") (on_queue (list_consumers topic_name))
    >>= λ consumers. send_response (array_reply consumers)

-- `handleCreate`
unfoldable pub handle_create : Handler
handle_create [] = raise (text (codes "CREATE requires topic name"))
handle_create (topic_name ∷ args) =
    wrapping (codes "failed to create topic") (on_queue (create_topic topic_name))
    >> send_response ok_reply

-- `handleDelete`
unfoldable pub handle_delete : Handler
handle_delete [] = raise (text (codes "DELETE requires topic name"))
handle_delete (topic_name ∷ args) =
    wrapping (codes "failed to delete topic") (on_queue (delete_topic topic_name))
    >> send_response ok_reply

-- `handlePing`
unfoldable pub handle_ping : Handler
handle_ping [] = send_response (codes "+PONG" ++ crlf)
handle_ping (word ∷ args) = send_response (bulk_reply word)

-- `handleQuit`: what the reply meets is dropped.
unfoldable pub handle_quit : Handler
handle_quit args s =
    let (r, s') = send_response ok_reply s in
    (err (text (codes "client disconnected")), record s' { active = false })

abbrev pub help_lines : List (List ℕ)
help_lines =
    codes "ENQUEUE <topic> <message> - Add message to topic"
    ∷ codes "LISTEN <topic> <consumer_id> - Get messages for consumer"
    ∷ codes "OFFSET <topic> <consumer_id> [offset] - Get/set consumer offset"
    ∷ codes "TOPICS - List all topics"
    ∷ codes "STATS [topic] - Get queue or topic statistics"
    ∷ codes "CONSUMERS <topic> - List consumers for topic"
    ∷ codes "CREATE <topic> - Create a new topic"
    ∷ codes "DELETE <topic> - Delete a topic"
    ∷ codes "PING [message] - Ping the server"
    ∷ codes "QUIT - Disconnect from server"
    ∷ codes "HELP - Show this help"
    ∷ []

-- `handleHelp`
unfoldable pub handle_help : Handler
handle_help args = send_response (array_reply help_lines)

-- `executeCommand`
unfoldable pub execute_command : List ℕ → Handler
execute_command name =
    if bytes_eq name (codes "ENQUEUE")
    then handle_enqueue
    else if bytes_eq name (codes "LISTEN")
    then handle_listen
    else if bytes_eq name (codes "OFFSET")
    then handle_offset
    else if bytes_eq name (codes "TOPICS")
    then handle_topics
    else if bytes_eq name (codes "STATS")
    then handle_stats
    else if bytes_eq name (codes "CONSUMERS")
    then handle_consumers
    else if bytes_eq name (codes "CREATE")
    then handle_create
    else if bytes_eq name (codes "DELETE")
    then handle_delete
    else if bytes_eq name (codes "PING")
    then handle_ping
    else if bytes_eq name (codes "QUIT")
    then handle_quit
    else if bytes_eq name (codes "HELP")
    then handle_help
    else λ args. raise (text (codes "unknown command: " ++ name))
