-- ===== src/Storage/Catalog/Consumers.antt =====
-- pkg/storage/catalog.go: the consumers in memory.
pub mod Offsets
pub mod Stale
pub mod Extremes
pub mod Removal
use yuclase.Base.{
  ℕ, zero, suc, ◌+◌, ◌-◌, ◌^◌, Bool, true, false, not, ◌||◌, Option, none, some, List, [], ◌∷◌,
  ◌++◌, length, map, ltb, leb, if◌then◌else◌,
}
use yuclase.Base.Int64.{ℤ, pos, negsuc, pos_part, neg_part, sub_ℕ, ltb_ℤ, eq_ℤ}
use yuclase.Base.Bytes.{codes}
use yuclase.Base.Exec.{Result, ok, err, panic, text, Error, Exec}
use yuclase.Base.Assoc.{lookup, insert, remove}
use yuclase.Storage.Document.{ConsumerOffset, ConsumerMap}
use yuclase.Storage.Disk.{On}

pub record Catalog : Type 0 where
  pub consumers : ConsumerMap
  pub dirty : Bool

abbrev pub CatalogM : Type 0 → Type 0
CatalogM A = Exec (On Catalog) A

abbrev pub set_catalog : (Catalog → Catalog) → CatalogM (Unit {0})
set_catalog f s = (ok tt, record { self = f s.self; disk = s.disk })

-- Reading a nil map finds nothing; ranging over it does nothing.
abbrev pub entries_of : ConsumerMap → List (List ℕ × ConsumerOffset)
entries_of none = []
entries_of (some m) = m

abbrev pub find : List ℕ → Catalog → Option ConsumerOffset
find id c = lookup id (entries_of c.consumers)

-- fmt.Errorf("consumer %s not found", consumerID)
abbrev pub not_found : List ℕ → Error
not_found id = text (codes "consumer " ++ id ++ codes " not found")

-- Writing to a nil map panics.
abbrev pub store : List ℕ → ConsumerOffset → CatalogM (Unit {0})
store id c s = elim s.self.consumers [
  | none ↦ (panic, s)
  | some m ↦ (
    ok tt,
    record { self = record { consumers = some (insert id c m); dirty = true }; disk = s.disk },
  )
]

-- `UpdateOffset`, by what the map holds for the consumer.
abbrev pub updated : List ℕ → ℤ → ℤ → Option ConsumerOffset → ConsumerOffset
updated id offset now (some c) = record c { offset = offset; last_updated = now }
updated id offset now none = record {
  consumer_id = id;
  offset = offset;
  last_updated = now;
  last_commit = now;
}

unfoldable pub update_offset : List ℕ → ℤ → CatalogM (Unit {0})
update_offset id offset s = store id (updated id offset s.disk.now (find id s.self)) s

-- `GetOffset`: a new consumer begins at 0.
offset_or_start : Option ConsumerOffset → ℤ
offset_or_start (some c) = c.offset
offset_or_start none = pos 0

unfoldable pub get_offset : List ℕ → Catalog → ℤ
unfolding offset_or_start
get_offset id c = offset_or_start (find id c)

-- `CommitOffset`
unfoldable pub commit_offset : List ℕ → CatalogM (Unit {0})
commit_offset id s = elim (find id s.self) [
  | some c ↦ store id (record c { last_commit = s.disk.now }) s
  | none ↦ (err (not_found id), s)
]

-- `GetConsumerInfo`
unfoldable pub get_consumer_info : List ℕ → Catalog → Result ConsumerOffset
get_consumer_info id c = elim (find id c) [ some x ↦ ok x | none ↦ err (not_found id) ]

-- `ListConsumers`, `GetAllConsumers`, `Size`
unfoldable pub list_consumers : Catalog → List (List ℕ)
list_consumers c = map (λ e. e.0) (entries_of c.consumers)

unfoldable pub get_all_consumers : Catalog → List (List ℕ × ConsumerOffset)
get_all_consumers c = entries_of c.consumers

unfoldable pub catalog_size : Catalog → ℕ
catalog_size c = length (entries_of c.consumers)

abbrev pub map_entries :
    (List (List ℕ × ConsumerOffset) → List (List ℕ × ConsumerOffset)) → ConsumerMap → ConsumerMap
map_entries f none = none
map_entries f (some m) = some (f m)

-- `RemoveConsumer`
unfoldable pub remove_consumer : List ℕ → CatalogM (Unit {0})
remove_consumer id s = elim (find id s.self) [
  | some c ↦ (
    ok tt,
    record {
      self = record { consumers = map_entries (remove id) s.self.consumers; dirty = true };
      disk = s.disk;
    },
  )
  | none ↦ (err (not_found id), s)
]

-- now.Sub(t): a duration is an int64, and the difference saturates.
unfoldable pub time_since : ℤ → ℤ → ℤ
time_since now t =
    let d = sub_ℕ (pos_part now + neg_part t) (neg_part now + pos_part t) in
    if ltb_ℤ (pos (2 ^ 63 - 1)) d
    then pos (2 ^ 63 - 1)
    else if ltb_ℤ d (negsuc (2 ^ 63 - 1))
    then negsuc (2 ^ 63 - 1)
    else d

unfoldable pub is_stale : ℤ → ℤ → ConsumerOffset → Bool
is_stale now max_age c = ltb_ℤ max_age (time_since now c.last_updated)

-- The loop of `CleanupStaleConsumers`: what is kept.
unfoldable pub keep_active : ℤ → ℤ → List (List ℕ × ConsumerOffset) → List (List ℕ × ConsumerOffset)
keep_active now max_age [] = []
keep_active now max_age ((id, c) ∷ m) =
    let rest = keep_active now max_age m in if is_stale now max_age c then rest else (id, c) ∷ rest

unfoldable pub count_stale : ℤ → ℤ → List (List ℕ × ConsumerOffset) → ℕ
count_stale now max_age [] = 0
count_stale now max_age ((id, c) ∷ m) =
    let rest = count_stale now max_age m in if is_stale now max_age c then suc rest else rest

-- `CleanupStaleConsumers`
unfoldable pub cleanup_stale_consumers : ℤ → CatalogM (Unit {0})
unfolding keep_active count_stale is_stale
cleanup_stale_consumers max_age s =
    let removed = count_stale s.disk.now max_age (entries_of s.self.consumers) in
    (
      ok tt,
      record {
        self = record {
          consumers = map_entries (keep_active s.disk.now max_age) s.self.consumers;
          dirty = if ltb 0 removed then true else s.self.dirty;
        };
        disk = s.disk;
      },
    )

-- The loops of `GetMinOffset` and `GetMaxOffset`; -1 stands for "none yet" in the first.
abbrev pub lower_to : ℤ → ℤ → ℤ
lower_to m o = if eq_ℤ m (negsuc 0) || ltb_ℤ o m then o else m

unfoldable pub min_loop : ℤ → List (List ℕ × ConsumerOffset) → ℤ
min_loop m [] = m
min_loop m ((id, c) ∷ es) = min_loop (lower_to m c.offset) es

unfoldable pub get_min_offset : Catalog → ℤ
unfolding min_loop
get_min_offset c = elim (entries_of c.consumers) [
  | [] ↦ pos 0
  | (e ∷ es) ↦ min_loop (negsuc 0) (e ∷ es)
]

unfoldable pub max_loop : ℤ → List (List ℕ × ConsumerOffset) → ℤ
max_loop m [] = m
max_loop m ((id, c) ∷ es) = max_loop (if ltb_ℤ m c.offset then c.offset else m) es

unfoldable pub get_max_offset : Catalog → ℤ
unfolding max_loop
get_max_offset c = max_loop (pos 0) (entries_of c.consumers)
