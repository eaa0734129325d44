-- ===== src/Consumer/Tests.antt =====
-- The theorems on pkg/queue/consumer.go at concrete inputs.
use yuclase.Base.{ℕ, ◌+◌, ◌≡◌, refl, ◌∙◌, false, true, [], ◌∷◌, List, bytes_eq, arith, take, length}
use yuclase.Base.Int64.{pos, negsuc}
use yuclase.Base.Bytes.{codes}
use yuclase.Base.Assoc.{lookup}
use yuclase.Base.Exec.{ok}
use yuclase.Config.Load.{defaults}
use yuclase.Storage.Samples.{empty_disk}
use yuclase.Storage.Log.Messages.Sequence.{entries_at}
use yuclase.Topic.Samples.{filled_topic, first_message, first_dequeue}
use yuclase.Queue.State.{free, Host}
use yuclase.Queue.Topics.{dequeue_with_limit}
use yuclase.Queue.Topics.Routing.{dequeue-Routes}
use yuclase.Consumer.State.{Client}
use yuclase.Consumer.Polling.{poll_messages}
use yuclase.Consumer.Polling.Sent.{Polls, poll-Polls, skipping-Polls, room}
use yuclase.Consumer.Lifecycle.{RunsOnce, new-RunsOnce}

abbrev orders : List ℕ
orders = codes "orders"

abbrev host : Host
host = record {
  self = record {
    lock = free;
    topics = (orders, filled_topic) ∷ [];
    config = defaults;
    closed = false;
  };
  directories = λ name. empty_disk;
}

-- A consumer at offset 0, and one before it.
abbrev new_client : Client
new_client = record {
  self = record {
    id = codes "c";
    topic_name = orders;
    offset = pos 0;
    last_activity = pos 0;
    active = false;
    messages = [];
    errors = [];
    stop_signal = false;
    stopped = false;
  };
  host = host;
  now = pos 2000;
}

abbrev early_client : Client
early_client = record new_client { self = record new_client.self { offset = negsuc 0 } }

abbrev stopped_client : Client
stopped_client = record early_client { self = record early_client.self { stopped = true } }

dequeued :
    (dequeue_with_limit orders (codes "c") (pos 10) host).0 ≡ ok (entries_at 0 (first_message ∷ []))
unfolding lookup bytes_eq
dequeued =
    (dequeue-Routes orders filled_topic host (codes "c") (pos 10) refl refl refl).returned
    ∙ first_dequeue

poll_example :
    Polls
      (take (room early_client.self) (entries_at 0 (first_message ∷ [])))
      early_client
      (poll_messages early_client)
poll_example = poll-Polls early_client 0 (first_message ∷ []) dequeued (omega arith) refl

skip_example :
    Polls
      (take (room new_client.self) (entries_at (0 + (12 + length first_message.payload)) []))
      new_client
      (poll_messages new_client)
skip_example = skipping-Polls new_client 0 first_message [] dequeued refl refl

once_example : RunsOnce new_client
once_example = new-RunsOnce new_client refl refl
