-- ===== src/Topic/Open/Crash.antt =====
-- `LoadTopic` of pkg/queue/topic.go after a program that ended without a `Close`.
use yuclase.Base.{ℕ, suc, ◌≡◌, refl, sym, ap, ◌∙◌, true, some, List}
use yuclase.Base.Exec.{ok}
use yuclase.Base.Int64.{pos}
use yuclase.Config.{Config}
use yuclase.Storage.Document.{ConsumerOffset}
use yuclase.Storage.Disk.{Disk, On}
use yuclase.Storage.Log.Messages.Sequence.{Message, log_bytes}
use yuclase.Storage.Index.Entries.{IndexEntry}
use yuclase.Storage.Index.File.RoundTrip.{AreEntries, all_bytes}
use yuclase.Storage.Catalog.File.{loaded}
use yuclase.Topic.State.{Topic}
use yuclase.Topic.Messages.Delivery.{Holds}
use yuclase.Topic.Open.{load_topic}
use yuclase.Topic.Open.Loading.{reloaded, full_disk, load_topic_lem, reloaded-Holds}

-- The topic that `LoadTopic` makes when the files of the index and of the catalog have the entries
-- `es` and the consumers `cs`.
pub record Recovers (i : ℕ) (ms : List Message) (es : List IndexEntry)
    (cs : List (List ℕ × ConsumerOffset)) (name : List ℕ) (config : Config) (d : Disk)
    : Type 0 where
  pub again : On Topic
  pub loads : load_topic true name config d ≡ (ok again.self, again.disk)
  pub holds : Holds i ms again
  pub old_consumers : again.self.catalog.consumers ≡ some cs
  pub now : again.disk.now ≡ d.now
  pub old_entries : again.self.index.entries ≡ es

module _ {i : ℕ} {ms : List Message} (s : On Topic) (h : Holds i ms s) (es : List IndexEntry)
    (cs : List (List ℕ × ConsumerOffset)) (name : List ℕ) (config : Config) (k : ℕ)
    (interval : config.storage.index_interval ≡ pos (suc k)) where
  -- A topic that holds `ms` and has an unfailing disk is lost without a `Close`: `LoadTopic` gives an
  -- open topic with all of the messages, but with the index entries and the consumers that their
  -- files have, whatever the memory had.
  pub crash-Recovers :
      s.disk.index_file ≡ some (all_bytes es)
      → AreEntries es
      → loaded s.disk.catalog_file ≡ ok (some cs)
      → Recovers i ms es cs name config s.disk
  crash-Recovers on_file are saved =
      let d = s.disk in
      let f = d.catalog_file in
      let g = d.catalog_temp in
      let same : full_disk es d f g ≡ d = ap (λ x. record d { index_file = x }) (sym on_file) in
      record {
        again = reloaded i (log_bytes ms) es (some cs) name config (full_disk es d f g);
        loads =
            ap (load_topic true name config) (sym same)
            ∙ load_topic_lem i (log_bytes ms) es (some cs) d f g h.log.on_disk name config are
                saved;
        holds =
            reloaded-Holds i ms es cs d f g h.log.on_disk name config k interval h.messages h.clock
              are saved;
        old_consumers = refl;
        now = refl;
        old_entries = refl;
      }
