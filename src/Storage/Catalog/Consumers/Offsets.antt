-- ===== src/Storage/Catalog/Consumers/Offsets.antt =====
-- Offsets of consumers in pkg/storage/catalog.go: `UpdateOffset` and `GetOffset`.
use yuclase.Base.{
  sym, ℕ, ◌≡◌, refl, ap, ◌∙◌, true, false, Option, none, some, List, if◌then◌else◌, bytes_eq,
}
use yuclase.Base.Int64.{ℤ}
use yuclase.Base.Exec.{ok}
use yuclase.Base.Assoc.{lookup, insert, lookup-insert}
use yuclase.Storage.Document.{ConsumerOffset}
use yuclase.Storage.Disk.{On}
use yuclase.Storage.Catalog.Consumers.{
  Catalog, update_offset, get_offset, find, store, updated, offset_or_start,
}

-- The catalog after an update of `id` to `o` in the map `m`.
abbrev pub moved : List ℕ → ℤ → List (List ℕ × ConsumerOffset) → On Catalog → On Catalog
moved id o m s = record {
  self = record {
    consumers = some (insert id (updated id o s.disk.now (lookup id m)) m);
    dirty = true;
  };
  disk = s.disk;
}

updated_offset :
    (id : List ℕ) (o now : ℤ) (c : Option ConsumerOffset) → (updated id o now c).offset ≡ o
updated_offset id o now none = refl
updated_offset id o now (some c) = refl

module _ (id : List ℕ) (o : ℤ) (s : On Catalog) (m : List (List ℕ × ConsumerOffset)) where
  pub update_offset_lem : s.self.consumers ≡ some m → update_offset id o s ≡ (ok tt, moved id o m s)
  unfolding update_offset
  update_offset_lem h = rw (h, store) (rw (h, find))

  -- After `UpdateOffset` the consumer's offset is the new one, and that of every other consumer is
  -- what it was.
  pub get_offset-moved :
      (j : List ℕ)
      → get_offset j (moved id o m s).self
        ≡ (if bytes_eq id j then o else get_offset j (record { consumers = some m; dirty = true }))
  unfolding get_offset
  get_offset-moved j =
      let c = updated id o s.disk.now (lookup id m) in
      ap offset_or_start (lookup-insert id j c m)
      ∙ (elim (bytes_eq id j)
          as (λ b.
            offset_or_start (if b then some c else lookup j m)
            ≡ (if b then o else offset_or_start (lookup j m))) [
              | true ↦ updated_offset id o s.disk.now (lookup id m)
              | false ↦ refl
            ])

module _ (id : List ℕ) (o : ℤ) (s : On Catalog) (m : List (List ℕ × ConsumerOffset)) where
  -- On a map that is not nil `UpdateOffset` succeeds; after it the consumer's offset is the new one,
  -- whether it was known or not, and that of every other consumer is what it was.
  pub get_offset-update_offset :
      s.self.consumers ≡ some m
      → ((update_offset id o s).0 ≡ ok tt)
        × ((j : List ℕ)
            → get_offset j (update_offset id o s).1.self
              ≡ (if bytes_eq id j then o else get_offset j s.self))
  unfolding get_offset
  get_offset-update_offset h =
      let e = update_offset_lem id o s m h in
      (
        ap (λ r. r.0) e,
        λ j.
            ap (λ r. get_offset j r.1.self) e
            ∙ get_offset-moved id o s m j
            ∙ ap
                (λ c.
                  if bytes_eq id j
                  then o
                  else get_offset j (record { consumers = c; dirty = true }))
                (sym h),
      )
