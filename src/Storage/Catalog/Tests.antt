-- ===== src/Storage/Catalog/Tests.antt =====
-- The theorems on pkg/storage/catalog.go at concrete inputs.
use yuclase.Base.{ℕ, ◌≤◌, Bool, true, false, some, List, [], ◌∷◌, ◌≡◌, refl, inr, bytes_eq}
use yuclase.Base.Int64.{pos}
use yuclase.Base.Bytes.{codes}
use yuclase.Base.Exec.{Syscall, rename_call, ok, panic}
use yuclase.Base.Assoc.{lookup}
use yuclase.Storage.Document.{ConsumerOffset}
use yuclase.Storage.Disk.{On}
use yuclase.Storage.Samples.{empty_disk}
use yuclase.Storage.Catalog.Consumers.{
  Catalog, update_offset, cleanup_stale_consumers, get_min_offset, get_max_offset,
}
use yuclase.Storage.Catalog.Consumers.Stale.{Cleans, cleanup_stale_consumers-Cleans}
use yuclase.Storage.Catalog.Consumers.Extremes.{IsLeast, get_min_offset-le-get_max_offset, IsMost}
use yuclase.Storage.Catalog.File.{persist, import}
use yuclase.Storage.Catalog.File.RoundTrip.{
  Spares, failed_persist-Spares, null, update_offset-import-null,
}

abbrev consumer : List ℕ → ℕ → ℕ → List ℕ × ConsumerOffset
consumer id o t =
    (id, record { consumer_id = id; offset = pos o; last_updated = pos t; last_commit = pos t })

abbrev consumers : List (List ℕ × ConsumerOffset)
consumers = consumer (codes "a") 14 900 ∷ consumer (codes "b") 40 100 ∷ []

abbrev catalog : On Catalog
catalog = record { self = record { consumers = some consumers; dirty = false }; disk = empty_disk }

abbrev no_rename : Syscall → Bool
no_rename rename_call = true
no_rename x = false

abbrev failing_catalog : On Catalog
failing_catalog = record { self = catalog.self; disk = record empty_disk { failing = no_rename } }

cleanup_example : Cleans (pos 500) consumers catalog (cleanup_stale_consumers (pos 500) catalog)
unfolding lookup bytes_eq
cleanup_example = cleanup_stale_consumers-Cleans (pos 500) catalog consumers refl (refl, (refl, tt))

extremes_example :
    (n k : ℕ) × (get_min_offset catalog.self ≡ pos n)
    × (get_max_offset catalog.self ≡ pos k)
    × IsLeast n consumers
    × IsMost k consumers
    × (n ≤ k)
extremes_example =
    get_min_offset-le-get_max_offset catalog.self (consumer (codes "a") 14 900)
      (consumer (codes "b") 40 100 ∷ []) refl ((14, refl, tt), ((40, refl, tt), tt))

spare_example : Spares failing_catalog (persist failing_catalog)
spare_example = failed_persist-Spares failing_catalog (inr refl)

null_example :
    ((import null catalog).0 ≡ ok tt)
    × ((update_offset (codes "a") (pos 28) (import null catalog).1).0 ≡ panic)
null_example = update_offset-import-null (codes "a") (pos 28) catalog (λ x. refl)
