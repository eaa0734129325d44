-- ===== src/Topic/Samples.antt =====
-- An open topic for the examples.
use yuclase.Base.{true, false, none, some, [], ◌∷◌, refl, arith, ap, ◌≡◌}
use yuclase.Base.Int64.{pos}
use yuclase.Base.Bytes.{codes}
use yuclase.Config.Load.{defaults}
use yuclase.Storage.Disk.{On}
use yuclase.Storage.Samples.{segment_disk, open_log, sample_IsOpen}
use yuclase.Storage.Index.File.RoundTrip.{all_bytes}
use yuclase.Storage.Catalog.File.{loaded}
use yuclase.Topic.State.{Topic}
use yuclase.Base.Assoc.{lookup}
use yuclase.Base.Exec.{ok}
use yuclase.Storage.Log.Messages.{header_bytes}
use yuclase.Storage.Log.Messages.Sequence.{Message, log_bytes, entries_at}
use yuclase.Storage.Catalog.Consumers.{get_offset}
use yuclase.Topic.Messages.{enqueue, dequeue}
use yuclase.Topic.Messages.Delivery.{Holds, HasRead, Enqueues, enqueue-Holds, new_message}
use yuclase.Topic.Messages.Dequeued.{dequeue-Delivers}

abbrev pub topic : On Topic
topic = record {
  self = record {
    name = codes "orders";
    held = false;
    log = open_log;
    index = record { entries = []; file_open = true; dirty = false };
    catalog = record { consumers = some []; dirty = false };
    config = defaults;
    created = none;
    last_used = pos 0;
    closed = false;
  };
  disk = segment_disk;
}

pub topic-Holds : Holds 0 [] topic
unfolding log_bytes defaults all_bytes loaded
topic-Holds = record {
  held = refl;
  is_open = refl;
  log = sample_IsOpen;
  messages = tt;
  clock = omega arith;
  interval_pred = 999;
  interval = refl;
  consumers = [];
  stored = refl;
  saved = record {
    index = record { entries = tt; file_open = refl; same = λ clean. refl };
    catalog = λ clean. refl;
  };
}

-- The topic with one message, which nobody has read.
abbrev pub filled_topic : On Topic
filled_topic = (enqueue (codes "hi") topic).1

abbrev pub first_message : Message
first_message = new_message (codes "hi") topic

pub filling : Enqueues 0 [] (codes "hi") topic (enqueue (codes "hi") topic)
unfolding log_bytes
filling = enqueue-Holds (codes "hi") topic topic-Holds (omega arith)

pub nothing_read : HasRead (codes "c") [] filled_topic
unfolding get_offset log_bytes lookup
nothing_read = ap (get_offset (codes "c")) filling.same_catalog

-- A consumer gets the message that is there.
pub first_dequeue :
    (dequeue (codes "c") (pos 10) filled_topic).0 ≡ ok (entries_at 0 (first_message ∷ []))
unfolding log_bytes header_bytes
first_dequeue =
    (dequeue-Delivers (codes "c") [] (first_message ∷ []) 10 filled_topic filling.holds nothing_read
      (omega arith)).returned
