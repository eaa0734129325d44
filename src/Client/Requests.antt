-- ===== src/Client/Requests.antt =====
-- internal/network/client.go: `SendCommand`, and a method for each command.
pub mod Ending
use yuclase.Base.{ℕ, List, [], ◌∷◌, ◌++◌, if◌then◌else◌}
use yuclase.Base.Int64.{ℤ}
use yuclase.Base.Bytes.{codes, decimal_ℤ}
use yuclase.Base.Exec.{text, Result, ok, err, panic, deadlock, stuck, ◌>>◌}
use yuclase.Client.Connection.{Client, ClientM, send_request}
use yuclase.Client.Replies.{read_response}

-- `SendCommand`
unfoldable pub send_command : List ℕ → ClientM (List ℕ)
send_command command c =
    if c.connected
    then (send_request command >> read_response) c
    else (err (text (codes "not connected to server")), c)

-- What the reply to QUIT was is dropped; the connection is closed then, with the result `closing`.
abbrev pub after_quit : Result (Unit {0}) → Result (List ℕ) × Client → Result (Unit {0}) × Client
after_quit closing (ok s, c) = (closing, c)
after_quit closing (err e, c) = (closing, c)
after_quit closing (panic, c) = (panic, c)
after_quit closing (deadlock, c) = (deadlock, c)
after_quit closing (stuck, c) = (stuck, c)

-- `Disconnect`
unfoldable pub disconnect : Result (Unit {0}) → ClientM (Unit {0})
unfolding send_command
disconnect closing c =
    if c.connected then after_quit closing (send_command (codes "QUIT") c) else (ok tt, c)

module _ (topic : List ℕ) where
  -- `Enqueue`
  unfoldable pub enqueue : List ℕ → ClientM (List ℕ)
  enqueue message = send_command (codes "ENQUEUE " ++ topic ++ 32 ∷ message)

  -- `Listen`
  unfoldable pub listen : List ℕ → ClientM (List ℕ)
  listen consumer_id = send_command (codes "LISTEN " ++ topic ++ 32 ∷ consumer_id)

  -- `GetOffset`
  unfoldable pub get_offset : List ℕ → ClientM (List ℕ)
  get_offset consumer_id = send_command (codes "OFFSET " ++ topic ++ 32 ∷ consumer_id)

  -- `SetOffset`
  unfoldable pub set_offset : List ℕ → ℤ → ClientM (List ℕ)
  set_offset consumer_id offset =
      send_command (codes "OFFSET " ++ topic ++ 32 ∷ consumer_id ++ 32 ∷ decimal_ℤ offset)

  -- `ListConsumers`, `CreateTopic` and `DeleteTopic`
  unfoldable pub list_consumers : ClientM (List ℕ)
  list_consumers = send_command (codes "CONSUMERS " ++ topic)

  unfoldable pub create_topic : ClientM (List ℕ)
  create_topic = send_command (codes "CREATE " ++ topic)

  unfoldable pub delete_topic : ClientM (List ℕ)
  delete_topic = send_command (codes "DELETE " ++ topic)

-- `ListTopics` and `Help`
unfoldable pub list_topics : ClientM (List ℕ)
list_topics = send_command (codes "TOPICS")

unfoldable pub help : ClientM (List ℕ)
help = send_command (codes "HELP")

-- `GetStats`
unfoldable pub get_stats : List ℕ → ClientM (List ℕ)
get_stats [] = send_command (codes "STATS")
get_stats (b ∷ bs) = send_command (codes "STATS " ++ b ∷ bs)

-- `Ping`
unfoldable pub ping : List ℕ → ClientM (List ℕ)
ping [] = send_command (codes "PING")
ping (b ∷ bs) = send_command (codes "PING " ++ b ∷ bs)
