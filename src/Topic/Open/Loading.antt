-- ===== src/Topic/Open/Loading.antt =====
-- `LoadTopic` of pkg/queue/topic.go on a directory with messages.
use yuclase.Base.{ℕ, suc, ◌≡◌, refl, true, false, Option, some, List}
use yuclase.Base.Int64.{pos, IsInt64}
use yuclase.Base.Exec.{ok}
use yuclase.Config.{Config, get_log_segment_bytes, get_sync_interval}
use yuclase.Storage.Document.{ConsumerOffset, Document, ConsumerMap}
use yuclase.Storage.Disk.{Disk, On}
use yuclase.Storage.Log.Segments.Rotation.{HasSegment, fresh, fresh-IsOpen}
use yuclase.Storage.Log.Segments.Reopening.{unopened, new_log_lem}
use yuclase.Storage.Log.Messages.Sequence.{Message, AreMessages, log_bytes}
use yuclase.Storage.Index.Entries.{IndexEntry}
use yuclase.Storage.Index.File.RoundTrip.{AreEntries, all_bytes, with_file}
use yuclase.Storage.Index.File.Reopening.{opened, new_index_lem}
use yuclase.Storage.Catalog.File.{loaded}
use yuclase.Storage.Catalog.File.Reopening.{with_files, new_catalog_lem}
use yuclase.Topic.State.{Topic}
use yuclase.Topic.Messages.Delivery.{Holds}
use yuclase.Topic.Open.{initialize, with_index, with_catalog, assemble, load_topic}

-- The topic that `LoadTopic` makes of the directory of `closed_with`.
abbrev pub reloaded : ℕ → List ℕ → List IndexEntry → ConsumerMap → List ℕ → Config → Disk → On Topic
reloaded i c es m name config d = record {
  self = assemble name config (some d.now) d.now (record {
    log = (fresh i 0 c (unopened (get_log_segment_bytes config) (get_sync_interval config) d)).self;
    index = opened es;
    catalog = record { consumers = m; dirty = false };
  });
  disk = d;
}

abbrev pub full_disk : List IndexEntry → Disk → Option Document → Option Document → Disk
full_disk es d f g = with_files f g (with_file (all_bytes es) d)

module _ (i : ℕ) (c : List ℕ) (es : List IndexEntry) (m : ConsumerMap) (d : Disk)
    (f g : Option Document) (h : HasSegment i 0 c d) where
  full-HasSegment : HasSegment i 0 c (full_disk es d f g)
  full-HasSegment = record {
    linked = h.linked;
    latest = h.latest;
    content = h.content;
    healthy = h.healthy;
  }

  pub load_topic_lem :
      (name : List ℕ) (config : Config)
      → AreEntries es
      → loaded f ≡ ok m
      → let t = reloaded i c es m name config (full_disk es d f g) in
        load_topic true name config (full_disk es d f g) ≡ (ok t.self, t.disk)
  unfolding load_topic initialize with_index with_catalog
  load_topic_lem name config are saved =
      rw
        (new_log_lem (get_log_segment_bytes config) (get_sync_interval config) (full_disk es d f g)
          full-HasSegment)
        rw (new_index_lem (with_files f g d) h.healthy es are) rw
        (new_catalog_lem (full_disk es d f g) h.healthy m saved) refl

module _ (i : ℕ) (ms : List Message) (es : List IndexEntry) (cs : List (List ℕ × ConsumerOffset))
    (d : Disk) (f g : Option Document) (h : HasSegment i 0 (log_bytes ms) d) where
  -- The loaded topic holds the messages of the segment.
  pub reloaded-Holds :
      (name : List ℕ) (config : Config) (k : ℕ)
      → config.storage.index_interval ≡ pos (suc k)
      → AreMessages ms
      → IsInt64 d.now
      → AreEntries es
      → loaded f ≡ ok (some cs)
      → Holds i ms (reloaded i (log_bytes ms) es (some cs) name config (full_disk es d f g))
  reloaded-Holds name config k interval messages clock are saved = record {
    held = refl;
    is_open = refl;
    log =
        fresh-IsOpen
          (unopened (get_log_segment_bytes config) (get_sync_interval config) (full_disk es d f g))
          (full-HasSegment i (log_bytes ms) es (some cs) d f g h);
    messages = messages;
    clock = clock;
    interval_pred = k;
    interval = interval;
    consumers = cs;
    stored = refl;
    saved = record {
      index = record { entries = are; file_open = refl; same = λ c. refl };
      catalog = λ c. saved;
    };
  }
