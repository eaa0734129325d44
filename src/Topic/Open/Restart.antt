-- ===== src/Topic/Open/Restart.antt =====
-- `Close` and `LoadTopic` of pkg/queue/topic.go: a topic that is closed and loaded again.
use yuclase.Base.{ℕ, ◌≡◌, refl, sym, ap, ◌∙◌, true, List, if◌then◌else◌}
use mathlib.Core.Path.{subst}
use yuclase.Base.Int64.{IsInt64}
use yuclase.Base.Exec.{Result, ok}
use yuclase.Storage.Disk.{On}
use yuclase.Storage.Log.Writer.{Log}
use yuclase.Storage.Log.Segments.{close as close_log}
use yuclase.Storage.Log.Segments.Reopening.{Closes, close-Closes as close_log-Closes}
use yuclase.Storage.Log.Messages.Sequence.{Message, log_bytes}
use yuclase.Storage.Catalog.File.{loaded, close as close_catalog}
use yuclase.Storage.Catalog.File.Reopening.{
  Closes as CatalogCloses, close-Closes as close_catalog-Closes,
}
use yuclase.Topic.State.{Topic, unlock}
use yuclase.Topic.State.Locks.{acquired, locking_lem}
use yuclase.Topic.Messages.Delivery.{Holds, log_of}
use yuclase.Topic.Open.Closing.{closed_with, catalog_on, close_parts_lem}
use yuclase.Topic.Open.Loading.{reloaded, full_disk, load_topic_lem, reloaded-Holds}
use yuclase.Topic.Open.{load_topic, close, close_parts}

-- The outcome of a `Close` after which `LoadTopic` finds everything again.
pub record Restarts (i : ℕ) (ms : List Message) (s : On Topic) (r : Result (Unit {0}) × On Topic)
    : Type 0 where
  pub returned : r.0 ≡ ok tt
  pub again : On Topic
  pub loads : load_topic true s.self.name s.self.config r.1.disk ≡ (ok again.self, again.disk)
  pub holds : Holds i ms again
  pub now : again.disk.now ≡ s.disk.now
  pub same_name : again.self.name ≡ s.self.name
  pub same_config : again.self.config ≡ s.self.config
  pub same_consumers : again.self.catalog.consumers ≡ s.self.catalog.consumers
  pub same_entries : again.self.index.entries ≡ s.self.index.entries

module _ {i : ℕ} {ms : List Message} (s : On Topic) (h : Holds i ms s) where
  closed_log : Closes i 0 (log_bytes ms) (log_of s) (close_log (log_of s))
  closed_log = close_log-Closes (log_of s) h.log

  abbrev log_after : On Log
  log_after = (close_log (log_of s)).1

  closed_catalog : let c = catalog_on s log_after in CatalogCloses c (close_catalog c)
  closed_catalog =
      close_catalog-Closes (catalog_on s log_after) closed_log.on_disk.healthy
        (λ clean. ap (λ p. loaded p.1) closed_log.side ∙ h.saved.catalog clean)

  close_lem : close s ≡ (ok tt, closed_with closed_catalog.file closed_catalog.temp log_after s)
  unfolding close
  close_lem =
      locking_lem (λ t. if t.self.closed then (ok tt, t) else close_parts t) s h.held
      ∙ ap (λ b. unlock (if b then (ok tt, acquired s) else close_parts (acquired s))) h.is_open
      ∙ ap unlock (
          close_parts_lem s log_after closed_catalog.file closed_catalog.temp
            closed_log.on_disk.healthy (ap (λ r. (r, log_after)) closed_log.returned)
            (record {
              entries = h.saved.index.entries;
              file_open = h.saved.index.file_open;
              same = λ clean. ap (λ p. p.0) closed_log.side ∙ h.saved.index.same clean;
            })
            closed_catalog.outcome)

  pub close-Restarts : Restarts i ms s (close s)
  close-Restarts = subst (Restarts i ms s) (sym close_lem) (
      let es = s.self.index.entries in
      let m = s.self.catalog.consumers in
      let d = log_after.disk in
      let f = closed_catalog.file in
      let g = closed_catalog.temp in
      record {
        returned = refl;
        again = reloaded i (log_bytes ms) es m s.self.name s.self.config (full_disk es d f g);
        loads =
            load_topic_lem i (log_bytes ms) es m d f g closed_log.on_disk s.self.name s.self.config
              h.saved.index.entries closed_catalog.loads;
        holds =
            subst
              (λ m'.
                Holds i ms
                  (reloaded i (log_bytes ms) es m' s.self.name s.self.config (full_disk es d f g)))
              (sym h.stored)
              (reloaded-Holds i ms es h.consumers d f g closed_log.on_disk s.self.name s.self.config
                h.interval_pred h.interval h.messages (subst IsInt64 (sym closed_log.now) h.clock)
                h.saved.index.entries (closed_catalog.loads ∙ ap ok h.stored));
        now = closed_log.now;
        same_name = refl;
        same_config = refl;
        same_consumers = refl;
        same_entries = refl;
      })
