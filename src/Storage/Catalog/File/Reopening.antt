-- ===== src/Storage/Catalog/File/Reopening.antt =====
-- `Close` and `NewCatalog` of pkg/storage/catalog.go: a catalog that is closed and opened again.
use yuclase.Base.{◌≡◌, ◌∙◌, refl, ap, Bool-cases, inl, inr, false, Option, none, some}
use yuclase.Base.Exec.{Syscall, mkdir_call, read_call, Result, ok, when}
use yuclase.Storage.Document.{Document, json, ConsumerMap}
use yuclase.Storage.Disk.{Disk, On}
use yuclase.Storage.Catalog.Consumers.{Catalog}
use yuclase.Storage.Catalog.File.{loaded, load, persist, close, new_catalog}
use yuclase.Storage.Catalog.File.RoundTrip.{persist_lem}

-- The file gives back what the memory has, unless the catalog is dirty.
abbrev pub IsSaved : On Catalog → Type 0
IsSaved s = s.self.dirty ≡ false → loaded s.disk.catalog_file ≡ ok s.self.consumers

abbrev pub with_files : Option Document → Option Document → Disk → Disk
with_files f g d = record d { catalog_file = f; catalog_temp = g }

-- What `Close` leaves: the file `f` has the consumers.
pub record Closes (s : On Catalog) (r : Result (Unit {0}) × On Catalog) : Type 0 where
  pub file : Option Document
  pub temp : Option Document
  pub outcome : r ≡ (
    ok tt,
    record { self = record s.self { dirty = false }; disk = with_files file temp s.disk },
  )
  pub loads : loaded file ≡ ok s.self.consumers

module _ (s : On Catalog) (healthy : (x : Syscall) → s.disk.failing x ≡ false) where
  pub close-Closes : IsSaved s → Closes s (close s)
  unfolding close loaded
  close-Closes h = elim (Bool-cases s.self.dirty) [
    | inl dirty ↦ record {
      file = some (json s.self.consumers);
      temp = none;
      outcome = ap (λ b. when b persist s) dirty ∙ persist_lem s healthy;
      loads = refl;
    }
    | inr clean ↦ record {
      file = s.disk.catalog_file;
      temp = s.disk.catalog_temp;
      outcome =
          ap (λ b. when b persist s) clean
          ∙ ap (λ b. (ok tt, record { self = record s.self { dirty = b }; disk = s.disk })) clean;
      loads = h clean;
    }
  ]

module _ (d : Disk) (healthy : (x : Syscall) → d.failing x ≡ false) (m : ConsumerMap) where
  pub new_catalog_lem :
      loaded d.catalog_file ≡ ok m
      → new_catalog d ≡ (ok (record { consumers = m; dirty = false }), d)
  unfolding new_catalog load
  new_catalog_lem h = rw (healthy mkdir_call) rw (healthy read_call) rw h refl
