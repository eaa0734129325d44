-- ===== src/Storage/Catalog/File.antt =====
-- pkg/storage/catalog.go: the JSON file, written to a temporary file and renamed.
pub mod RoundTrip
pub mod Reopening
use yuclase.Base.{true, false, Option, none, some, [], if◌then◌else◌}
use yuclase.Base.Bytes.{codes}
use yuclase.Base.Exec.{
  mkdir_call, write_call, read_call, rename_call, os_error, text, wrap, Result, ok, err, pure, lift,
  gets, wrapping, when, ◌>>=◌, ◌>>◌,
}
use yuclase.Storage.Document.{ConsumerMap, Document, blank, malformed, json}
use yuclase.Storage.Disk.{Disk, on_disk, system_call}
use yuclase.Storage.Catalog.Consumers.{Catalog, CatalogM, set_catalog}

-- json.Unmarshal
unfoldable pub unmarshal : Document → Result ConsumerMap
unmarshal (json m) = ok m
unmarshal blank = err (text (codes "unexpected end of JSON input"))
unmarshal malformed = err (text (codes "invalid character"))

-- What `load` makes of the file: a file that is missing or empty leaves the new map.
unfoldable pub loaded : Option Document → Result ConsumerMap
loaded none = ok (some [])
loaded (some blank) = ok (some [])
loaded (some (json m)) = ok m
loaded (some malformed) =
    err (wrap (codes "failed to unmarshal catalog") (text (codes "invalid character")))

-- `load`
unfoldable pub load : Disk → Result ConsumerMap × Disk
unfolding loaded
load d =
    if d.failing read_call
    then (err (wrap (codes "failed to read catalog file") (os_error read_call)), d)
    else (loaded d.catalog_file, d)

-- `NewCatalog`
unfoldable pub new_catalog : Disk → Result Catalog × Disk
new_catalog d =
    if d.failing mkdir_call
    then (err (wrap (codes "failed to create catalog directory") (os_error mkdir_call)), d)
    else ((do
      consumers ← wrapping (codes "failed to load catalog") load
      pure (record { consumers = consumers; dirty = false }))
        d)

-- os.Rename, and os.Remove of the temporary file where that fails.
rename_temp : Disk → Result (Unit {0}) × Disk
rename_temp d =
    if d.failing rename_call
    then (err (os_error rename_call), record d { catalog_temp = none })
    else (ok tt, record d { catalog_file = d.catalog_temp; catalog_temp = none })

-- `persist`
unfoldable pub persist : CatalogM (Unit {0})
unfolding rename_temp
persist = do
  consumers ← gets (λ s. s.self.consumers)
  wrapping (codes "failed to write temporary catalog file") (
      on_disk
        (system_call write_call (λ d. (ok tt, record d { catalog_temp = some (json consumers) }))))
  wrapping (codes "failed to rename catalog file") (on_disk rename_temp)
  set_catalog λ c. record c { dirty = false }

-- `Sync`, and `Close`, which does the same.
unfoldable pub sync : CatalogM (Unit {0})
sync = do dirty ← gets (λ s. s.self.dirty); when dirty persist

unfoldable pub close : CatalogM (Unit {0})
close = do dirty ← gets (λ s. s.self.dirty); when dirty persist

-- `Reset`
unfoldable pub reset : CatalogM (Unit {0})
reset = (set_catalog λ c. record { consumers = some []; dirty = true }) >> persist

-- `Export`
unfoldable pub export : Catalog → Document
export c = json c.consumers

-- `Import`
unfoldable pub import : Document → CatalogM (Unit {0})
unfolding unmarshal
import bytes = do
  consumers ← wrapping (codes "failed to unmarshal import data") (lift (unmarshal bytes))
  set_catalog λ c. record { consumers = consumers; dirty = true }
  persist
