-- ===== src/Topic/State.antt =====
-- pkg/queue/topic.go: the topic's state, its lock and its components.
pub mod Locks
pub mod Saved
use yuclase.Base.{
  ℕ, zero, suc, ◌+◌, ◌/◌, ◌%◌, Bool, true, false, Option, none, some, List, ◌++◌, ◌==◌,
  if◌then◌else◌,
}
use yuclase.Base.Int64.{ℤ, pos, negsuc, eq_ℤ}
use yuclase.Base.Bytes.{codes}
use yuclase.Base.Exec.{
  Error, text, Result, ok, err, panic, deadlock, stuck, Exec, raise, gets, ◌>>=◌, ◌>>◌,
}
use yuclase.Config.{Config}
use yuclase.Storage.Disk.{Disk, On}
use yuclase.Storage.Log.Writer.{Log}
use yuclase.Storage.Log.Segments.{get_size}
use yuclase.Storage.Index.Entries.{Index}
use yuclase.Storage.Catalog.Consumers.{Catalog, catalog_size}

-- `held` is the mutex: a method of the topic is running. The topic's path is the disk. `created`
-- is `none` for the zero time.
pub record Topic : Type 0 where
  pub name : List ℕ
  pub held : Bool
  pub log : Log
  pub index : Index
  pub catalog : Catalog
  pub config : Config
  pub created : Option ℤ
  pub last_used : ℤ
  pub closed : Bool

pub record TopicStats : Type 0 where
  pub name : List ℕ
  pub message_count : ℤ
  pub size : ℤ
  pub consumers : ℕ
  pub created : Option ℤ
  pub last_used : ℤ

abbrev pub TopicM : Type 0 → Type 0
TopicM A = Exec (On Topic) A

abbrev pub set_topic : (Topic → Topic) → TopicM (Unit {0})
set_topic f s = (ok tt, record { self = f s.self; disk = s.disk })

module _ {A : Type 0} where
  -- `defer t.mu.Unlock()` runs on a return and on a panic, and never after a deadlock.
  abbrev pub unlock : Result A × On Topic → Result A × On Topic
  unlock (ok a, s) = (ok a, record { self = record s.self { held = false }; disk = s.disk })
  unlock (err e, s) = (err e, record { self = record s.self { held = false }; disk = s.disk })
  unlock (panic, s) = (panic, record { self = record s.self { held = false }; disk = s.disk })
  unlock (deadlock, s) = (deadlock, s)
  unlock (stuck, s) = (stuck, s)

  -- `t.mu.Lock()`: a `sync.RWMutex` that the same call chain holds is never released.
  abbrev pub locking : TopicM A → TopicM A
  locking m s =
      if s.self.held
      then (deadlock, s)
      else unlock (m (record { self = record s.self { held = true }; disk = s.disk }))

  -- `t.mu.RLock()`, around methods that change nothing.
  abbrev pub read_locking : TopicM A → TopicM A
  read_locking m s = if s.self.held then (deadlock, s) else m s

  abbrev pub on_log : Exec (On Log) A → TopicM A
  on_log m s =
      let (r, t) = m (record { self = s.self.log; disk = s.disk }) in
      (r, record { self = record s.self { log = t.self }; disk = t.disk })

  abbrev pub on_index : Exec (On Index) A → TopicM A
  on_index m s =
      let (r, t) = m (record { self = s.self.index; disk = s.disk }) in
      (r, record { self = record s.self { index = t.self }; disk = t.disk })

  abbrev pub on_catalog : Exec (On Catalog) A → TopicM A
  on_catalog m s =
      let (r, t) = m (record { self = s.self.catalog; disk = s.disk }) in
      (r, record { self = record s.self { catalog = t.self }; disk = t.disk })

-- return fmt.Errorf("topic %s is closed", t.name)
abbrev pub closed_error : List ℕ → Error
closed_error name = text (codes "topic " ++ name ++ codes " is closed")

abbrev pub when_open : {A : Type 0} → TopicM A → TopicM A
when_open m s = if s.self.closed then (err (closed_error s.self.name), s) else m s

-- t.lastUsed = time.Now()
abbrev pub touch : TopicM (Unit {0})
touch s = (ok tt, record { self = record s.self { last_used = s.disk.now }; disk = s.disk })

-- `size / 13`, which rounds towards zero.
abbrev divide : ℤ → ℕ → ℤ
divide (pos n) k = pos (n / k)
divide (negsuc n) k = elim ((n + 1) / k) [ zero ↦ pos 0 | suc m ↦ negsuc m ]

-- `getMessageCount`
unfoldable pub get_message_count : Log → ℤ
get_message_count l = let size = get_size l in if eq_ℤ size (pos 0) then pos 0 else divide size 13

-- `GetStats`
unfoldable pub get_stats : TopicM TopicStats
unfolding get_message_count
get_stats = read_locking (
    gets λ s. record {
      name = s.self.name;
      message_count = get_message_count s.self.log;
      size = get_size s.self.log;
      consumers = catalog_size s.self.catalog;
      created = s.self.created;
      last_used = s.self.last_used;
    })

-- `IsEmpty`
unfoldable pub is_empty : TopicM Bool
is_empty = read_locking (gets λ s. eq_ℤ (get_size s.self.log) (pos 0))
