-- ===== src/Storage/Catalog/File/RoundTrip.antt =====
-- The file of pkg/storage/catalog.go: `persist`, `load`, `Export` and `Import`.
use yuclase.Base.{◌≡◌, refl, sym, true, false, none, some, List, Bool-cases, inl, inr, ◌⊎◌, ap, ℕ}
use mathlib.Core.Path.{subst}
use yuclase.Base.Exec.{
  Syscall, write_call, rename_call, read_call, Error, os_error, wrap, Result, ok, err, panic,
}
use yuclase.Base.Bytes.{codes}
use yuclase.Base.Int64.{ℤ}
use yuclase.Storage.Document.{ConsumerMap, Document, json}
use yuclase.Storage.Disk.{On}
use yuclase.Storage.Catalog.Consumers.{Catalog, update_offset}
use yuclase.Storage.Catalog.File.{load, loaded, persist, rename_temp, export, import, unmarshal}

-- The catalog and the disk after a `persist`.
abbrev persisted : On Catalog → On Catalog
persisted s = record {
  self = record s.self { dirty = false };
  disk = record s.disk { catalog_file = some (json s.self.consumers); catalog_temp = none };
}

module _ (s : On Catalog) (healthy : (x : Syscall) → s.disk.failing x ≡ false) where
  pub persist_lem : persist s ≡ (ok tt, persisted s)
  unfolding persist rename_temp
  persist_lem = rw (healthy write_call) (rw (healthy rename_call) refl)

-- The outcome of a `persist` or an `Import` of the map `m`.
pub record Stores (m : ConsumerMap) (r : Result (Unit {0}) × On Catalog) : Type 0 where
  pub returned : r.0 ≡ ok tt
  pub clean : r.1.self.dirty ≡ false
  pub holds : r.1.self.consumers ≡ m
  pub loads : (load r.1.disk).0 ≡ ok m

module _ (s : On Catalog) (healthy : (x : Syscall) → s.disk.failing x ≡ false) where
  persisted-Stores : Stores s.self.consumers (ok tt, persisted s)
  unfolding load loaded
  persisted-Stores = record {
    returned = refl;
    clean = refl;
    holds = refl;
    loads = rw (healthy read_call) refl;
  }

  -- On an unfailing disk `persist` succeeds, and `load` of what it wrote gives the same consumers.
  pub persist-Stores : Stores s.self.consumers (persist s)
  persist-Stores = subst (Stores s.self.consumers) (sym (persist_lem s healthy)) persisted-Stores

module _ (c : Catalog) (s : On Catalog) (healthy : (x : Syscall) → s.disk.failing x ≡ false) where
  -- On an unfailing disk `Import` of what another catalog exports succeeds and leaves exactly that
  -- catalog's consumers, in memory and in the file.
  pub import-export : Stores c.consumers (import (export c) s)
  unfolding import export unmarshal
  import-export =
      persist-Stores
        (record { self = record { consumers = c.consumers; dirty = true }; disk = s.disk }) healthy

-- The file survives: `load` gives what it gave before.
pub record Spares (s : On Catalog) (r : Result (Unit {0}) × On Catalog) : Type 0 where
  pub fails : (c : List ℕ) × (e : Error) × (r.0 ≡ err (wrap c e))
  pub same_file : r.1.disk.catalog_file ≡ s.disk.catalog_file
  pub same_catalog : r.1.self ≡ s.self

module _ (s : On Catalog) where
  write_refused :
      s.disk.failing write_call ≡ true
      → persist s
        ≡ (err (wrap (codes "failed to write temporary catalog file") (os_error write_call)), s)
  unfolding persist
  write_refused h = rw h refl

  write_failed-Spares : s.disk.failing write_call ≡ true → Spares s (persist s)
  write_failed-Spares h =
      subst (Spares s) (sym (write_refused h))
        (record { fails = (_, _, refl); same_file = refl; same_catalog = refl })

  rename_refused :
      s.disk.failing write_call ≡ false
      → s.disk.failing rename_call ≡ true
      → persist s ≡ (
        err (wrap (codes "failed to rename catalog file") (os_error rename_call)),
        record { self = s.self; disk = record s.disk { catalog_temp = none } },
      )
  unfolding persist rename_temp
  rename_refused h g = rw (h) (rw g refl)

module _ (s : On Catalog) where
  rename_failed-Spares : s.disk.failing rename_call ≡ true → Spares s (persist s)
  rename_failed-Spares h = elim (Bool-cases (s.disk.failing write_call)) [
    | inl refused ↦ write_failed-Spares s refused
    | inr written ↦
        subst (Spares s) (sym (rename_refused s written h))
          (record { fails = (_, _, refl); same_file = refl; same_catalog = refl })
  ]

  -- Where the temporary file cannot be written, or cannot be renamed, `persist` returns an error,
  -- the catalog file is what it was, and the consumers stay dirty in memory.
  pub failed_persist-Spares :
      (s.disk.failing write_call ≡ true) ⊎ (s.disk.failing rename_call ≡ true)
      → Spares s (persist s)
  failed_persist-Spares (inl h) = write_failed-Spares s h
  failed_persist-Spares (inr h) = rename_failed-Spares h

-- `json.Unmarshal` of `null` gives the nil map.
abbrev pub null : Document
null = json none

module _ (id : List ℕ) (o : ℤ) (s : On Catalog)
    (healthy : (x : Syscall) → s.disk.failing x ≡ false) where
  -- On an unfailing disk `Import` of JSON `null` succeeds, and the next `UpdateOffset` panics.
  pub update_offset-import-null :
      ((import null s).0 ≡ ok tt) × ((update_offset id o (import null s).1).0 ≡ panic)
  unfolding import unmarshal update_offset
  update_offset-import-null =
      let start : On Catalog = record {
        self = record { consumers = none; dirty = true };
        disk = s.disk;
      } in
      let e = persist_lem start healthy in (ap (λ r. r.0) e, ap (λ r. (update_offset id o r.1).0) e)
