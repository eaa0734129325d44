-- ===== src/Topic/Open.antt =====
-- pkg/queue/topic.go: `NewTopic`, `LoadTopic`, `initialize`, `Close` and `Delete`.
pub mod Lifetime
pub mod Closing
pub mod Creation
pub mod Loading
pub mod Restart
pub mod Crash
use yuclase.Base.{
  Bool, ℕ, true, false, Option, none, some, List, [], ◌∷◌, ◌++◌, bytes_eq, if◌then◌else◌,
}
use yuclase.Base.Int64.{ℤ}
use yuclase.Base.Bytes.{codes}
use yuclase.Base.Exec.{
  mkdir_call, remove_call, os_error, Error, wrap, text, error_text, Result, ok, err, panic,
  deadlock, stuck, pure, lift, gets, wrapping, ◌>>=◌, ◌>>◌,
}
use yuclase.Config.{Config, get_log_segment_bytes, get_sync_interval}
use yuclase.Storage.Disk.{Disk, on_disk, system_call}
use yuclase.Storage.Log.Writer.{Log}
use yuclase.Storage.Log.Segments.{new_log, close as close_log}
use yuclase.Storage.Index.Entries.{Index}
use yuclase.Storage.Index.File.{new_index, close as close_index}
use yuclase.Storage.Catalog.Consumers.{Catalog}
use yuclase.Storage.Catalog.File.{new_catalog, close as close_catalog}
use yuclase.Topic.State.{Topic, TopicM, set_topic, locking, on_log, on_index, on_catalog}

pub record Parts : Type 0 where
  pub log : Log
  pub index : Index
  pub catalog : Catalog

-- t.log.Close(), t.index.Close(): their errors are dropped.
drop_log : Log → Disk → Disk
drop_log l d = (close_log (record { self = l; disk = d })).1.disk

drop_index : Index → Disk → Disk
drop_index i d = (close_index (record { self = i; disk = d })).1.disk

with_catalog : Log → Index → Result Catalog × Disk → Result Parts × Disk
unfolding drop_log drop_index
with_catalog l i (ok c, d) = (ok (record { log = l; index = i; catalog = c }), d)
with_catalog l i (err e, d) =
    (err (wrap (codes "failed to create catalog") e), drop_index i (drop_log l d))
with_catalog l i (panic, d) = (panic, d)
with_catalog l i (deadlock, d) = (deadlock, d)
with_catalog l i (stuck, d) = (stuck, d)

with_index : Log → Result Index × Disk → Result Parts × Disk
unfolding with_catalog drop_log
with_index l (ok i, d) = with_catalog l i (new_catalog d)
with_index l (err e, d) = (err (wrap (codes "failed to create index") e), drop_log l d)
with_index l (panic, d) = (panic, d)
with_index l (deadlock, d) = (deadlock, d)
with_index l (stuck, d) = (stuck, d)

-- `initialize`: what was opened is closed again where a later part fails.
unfoldable pub initialize : Config → Disk → Result Parts × Disk
unfolding with_index
initialize config = do
  log ←
      wrapping (codes "failed to create log")
        (new_log (get_log_segment_bytes config) (get_sync_interval config))
  λ d. with_index log (new_index d)

-- The topic around its parts.
abbrev assemble : List ℕ → Config → Option ℤ → ℤ → Parts → Topic
assemble name config created last_used p = record {
  name = name;
  held = false;
  log = p.log;
  index = p.index;
  catalog = p.catalog;
  config = config;
  created = created;
  last_used = last_used;
  closed = false;
}

-- `NewTopic`
unfoldable pub new_topic : List ℕ → Config → Disk → Result Topic × Disk
new_topic name config d =
    if bytes_eq name []
    then (err (text (codes "topic name cannot be empty")), d)
    else if d.failing mkdir_call
    then (err (wrap (codes "failed to create topic directory") (os_error mkdir_call)), d)
    else ((do
      parts ← wrapping (codes "failed to initialize topic") (initialize config)
      pure (assemble name config (some d.now) d.now parts))
        d)

-- `LoadTopic`, by whether `os.Stat` finds the directory; `loadMetadata` sets the time that is still
-- zero.
unfoldable pub load_topic : Bool → List ℕ → Config → Disk → Result Topic × Disk
load_topic exists name config d =
    if exists
    then ((do
      parts ← wrapping (codes "failed to load topic") (initialize config)
      pure (assemble name config (some d.now) d.now parts))
        d)
    else (err (text (codes "topic " ++ name ++ codes " does not exist")), d)

-- if err := …; err != nil { errors = append(errors, fmt.Errorf("c: %w", err)) }
unfoldable pub attempt : List ℕ → TopicM (Unit {0}) → TopicM (List Error)
attempt c m s =
    let (r, s') = m s in
    elim r [
      | ok u ↦ (ok [], s')
      | err e ↦ (ok (wrap c e ∷ []), s')
      | panic ↦ (panic, s')
      | deadlock ↦ (deadlock, s')
      | stuck ↦ (stuck, s')
    ]

-- fmt.Errorf("…: %v", errors)
unfoldable pub error_list : List Error → List ℕ
error_list [] = []
error_list (e ∷ []) = error_text e
error_list (e ∷ f ∷ es) = error_text e ++ codes " " ++ error_list (f ∷ es)

abbrev pub report : List ℕ → List Error → Result (Unit {0})
report c [] = ok tt
report c (e ∷ es) = err (text (c ++ codes ": [" ++ error_list (e ∷ es) ++ codes "]"))

-- Every part is closed, whatever the others returned; `saveMetadata` does nothing.
unfoldable pub close_parts : TopicM (Unit {0})
unfolding attempt error_list
close_parts = do
  a ← attempt (codes "failed to close log") (on_log close_log)
  b ← attempt (codes "failed to close index") (on_index close_index)
  c ← attempt (codes "failed to close catalog") (on_catalog close_catalog)
  set_topic λ t. record t { closed = true }
  lift (report (codes "errors closing topic") (a ++ b ++ c))

-- `Close`
unfoldable pub close : TopicM (Unit {0})
close = locking λ s. if s.self.closed then (ok tt, s) else close_parts s

-- os.RemoveAll(t.path)
unfoldable pub remove_all : Disk → Result (Unit {0}) × Disk
remove_all = system_call remove_call λ d.
    (ok tt, record d { entries = []; index_file = none; catalog_file = none; catalog_temp = none })

-- A call whose error is dropped.
unfoldable pub ignoring : TopicM (Unit {0}) → TopicM (Unit {0})
ignoring m s =
    let (r, s') = m s in
    elim r [
      | ok u ↦ (ok tt, s')
      | err e ↦ (ok tt, s')
      | panic ↦ (panic, s')
      | deadlock ↦ (deadlock, s')
      | stuck ↦ (stuck, s')
    ]

-- `Delete`: `Close` is called under the lock that it takes itself.
unfoldable pub delete : TopicM (Unit {0})
unfolding ignoring
delete = locking do
  closed ← gets (λ s. s.self.closed)
  if closed then pure tt else ignoring close
  on_disk remove_all
