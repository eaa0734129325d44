-- ===== src/Topic/Open/Creation.antt =====
-- `NewTopic` of pkg/queue/topic.go in a directory that is not there yet.
use yuclase.Base.{ℕ, suc, ◌≡◌, refl, ap, false, none, some, List, [], bytes_eq}
use yuclase.Base.Int64.{pos, IsInt64}
use yuclase.Base.Exec.{Syscall, mkdir_call, ok}
use yuclase.Config.{Config, get_log_segment_bytes, get_sync_interval}
use yuclase.Storage.Disk.{Disk, On}
use yuclase.Storage.Log.Messages.Sequence.{log_bytes}
use yuclase.Storage.Log.Segments.Rotation.{HasSegment, fresh}
use yuclase.Storage.Log.Segments.Reopening.{created, created-HasSegment, unopened, new_log_empty}
use yuclase.Storage.Index.File.RoundTrip.{all_bytes, with_file}
use yuclase.Storage.Index.File.Reopening.{opened, new_index_empty}
use yuclase.Storage.Catalog.File.{loaded}
use yuclase.Storage.Catalog.File.Reopening.{new_catalog_lem}
use yuclase.Topic.State.{Topic}
use yuclase.Topic.Messages.Delivery.{Holds}
use yuclase.Topic.Open.{initialize, with_index, with_catalog, assemble, new_topic}

-- The directory has nothing in it, and no call fails.
pub record IsEmpty (d : Disk) : Type 0 where
  pub entries : d.entries ≡ []
  pub no_index : d.index_file ≡ none
  pub no_catalog : d.catalog_file ≡ none
  pub healthy : (x : Syscall) → d.failing x ≡ false

-- The topic that `NewTopic` makes there.
abbrev pub made : List ℕ → Config → Disk → On Topic
made name config d = record {
  self = assemble name config (some d.now) d.now (record {
    log =
        (fresh d.next_inode 0 []
          (unopened (get_log_segment_bytes config) (get_sync_interval config) d)).self;
    index = opened [];
    catalog = record { consumers = some []; dirty = false };
  });
  disk = with_file (all_bytes []) (created d);
}

module _ (name : List ℕ) (config : Config) (d : Disk) (h : IsEmpty d) where
  pub new_topic_lem :
      bytes_eq name [] ≡ false
      → let t = made name config d in new_topic name config d ≡ (ok t.self, t.disk)
  unfolding new_topic initialize with_index with_catalog loaded
  new_topic_lem named =
      rw named rw (h.healthy mkdir_call) rw
        (new_log_empty d h.healthy (get_log_segment_bytes config) (get_sync_interval config)
          h.entries)
        rw (new_index_empty (created d) h.healthy h.no_index) rw
        (new_catalog_lem (made name config d).disk h.healthy (some []) (ap loaded h.no_catalog))
        refl

  made-HasSegment : HasSegment d.next_inode 0 [] (made name config d).disk
  made-HasSegment =
      let g = created-HasSegment d h.healthy in
      record { linked = g.linked; latest = g.latest; content = g.content; healthy = h.healthy }

  pub made-Holds :
      (k : ℕ)
      → config.storage.index_interval ≡ pos (suc k)
      → IsInt64 d.now
      → Holds d.next_inode [] (made name config d)
  unfolding log_bytes loaded all_bytes
  made-Holds k interval clock = record {
    held = refl;
    is_open = refl;
    log = record {
      handle = refl;
      writer = refl;
      size = refl;
      segment = refl;
      on_disk = made-HasSegment;
    };
    messages = tt;
    clock = clock;
    interval_pred = k;
    interval = interval;
    consumers = [];
    stored = refl;
    saved = record {
      index = record { entries = tt; file_open = refl; same = λ c. refl };
      catalog = λ c. ap loaded h.no_catalog;
    };
  }

  -- In an empty directory of an unfailing disk, for a name that is not empty and an interval of the
  -- index above zero, `NewTopic` succeeds with an open topic that holds no message.
  pub new_topic-Holds :
      (k : ℕ)
      → bytes_eq name [] ≡ false
      → config.storage.index_interval ≡ pos (suc k)
      → IsInt64 d.now
      → (s : On Topic) × (new_topic name config d ≡ (ok s.self, s.disk)) × Holds d.next_inode [] s
  new_topic-Holds k named interval clock =
      (made name config d, new_topic_lem named, made-Holds k interval clock)
