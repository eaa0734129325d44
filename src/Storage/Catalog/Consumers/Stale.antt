-- ===== src/Storage/Catalog/Consumers/Stale.antt =====
-- `CleanupStaleConsumers` of pkg/storage/catalog.go: who goes and who stays.
use yuclase.Base.{
  ℕ, ◌+◌, ◌≡◌, refl, ap, ◌∙◌, Option, none, some, List, [], ◌∷◌, length, if◌then◌else◌, bytes_eq,
  bytes_eq_sound, Bool-cases, inl, inr, arith,
}
use mathlib.Core.Path.{subst}
use yuclase.Base.Int64.{ℤ}
use yuclase.Base.Exec.{Result, ok}
use yuclase.Base.Assoc.{lookup, IsMap}
use yuclase.Storage.Document.{ConsumerOffset}
use yuclase.Storage.Disk.{On}
use yuclase.Storage.Catalog.Consumers.{
  Catalog, is_stale, keep_active, count_stale, cleanup_stale_consumers, find, catalog_size,
}

-- What is left of a consumer's entry.
abbrev pub kept : ℤ → ℤ → Option ConsumerOffset → Option ConsumerOffset
kept now age none = none
kept now age (some c) = if is_stale now age c then none else some c

module _ (now age : ℤ) where
  lookup-keep_active :
      (id : List ℕ) (m : List (List ℕ × ConsumerOffset))
      → IsMap m
      → lookup id (keep_active now age m) ≡ kept now age (lookup id m)
  unfolding lookup keep_active
  lookup-keep_active id [] h = refl
  lookup-keep_active id ((j, c) ∷ m) (fresh, h) =
      let rest = lookup-keep_active id m h in
      elim (Bool-cases (bytes_eq j id)) [
        | inl same ↦ elim (Bool-cases (is_stale now age c)) [
          | inl stale ↦ rw (same) (
              rw stale (
                rest
                ∙ ap (kept now age)
                    (subst (λ x. lookup x m ≡ none) (bytes_eq_sound j id same) fresh)))
          | inr active ↦ rw (same) (rw (active) (rw (same) refl))
        ]
        | inr other ↦ elim (Bool-cases (is_stale now age c)) [
          | inl stale ↦ rw (other) (rw stale rest)
          | inr active ↦ rw (other) (rw (active) (rw (other) rest))
        ]
      ]

  length-keep_active :
      (m : List (List ℕ × ConsumerOffset))
      → length (keep_active now age m) + count_stale now age m ≡ length m
  unfolding keep_active count_stale
  length-keep_active [] = refl
  length-keep_active ((j, c) ∷ m) = elim (Bool-cases (is_stale now age c)) [
    | inl stale ↦ rw stale (omega (arith, length-keep_active m))
    | inr active ↦ rw active (omega (arith, length-keep_active m))
  ]

-- The outcome of a cleanup at the time `s.disk.now` of a catalog that holds `m`.
pub record Cleans (age : ℤ) (m : List (List ℕ × ConsumerOffset)) (s : On Catalog)
    (r : Result (Unit {0}) × On Catalog) : Type 0 where
  pub returned : r.0 ≡ ok tt
  pub left : (id : List ℕ) → find id r.1.self ≡ kept s.disk.now age (lookup id m)
  pub size : catalog_size r.1.self + count_stale s.disk.now age m ≡ length m
  pub same_disk : r.1.disk ≡ s.disk

-- `CleanupStaleConsumers` removes exactly the consumers whose last update is longer ago than the
-- limit, keeps every other entry as it was, and what it removes and keeps adds up.
pub cleanup_stale_consumers-Cleans :
    (age : ℤ) (s : On Catalog) (m : List (List ℕ × ConsumerOffset))
    → s.self.consumers ≡ some m
    → IsMap m
    → Cleans age m s (cleanup_stale_consumers age s)
unfolding cleanup_stale_consumers catalog_size
cleanup_stale_consumers-Cleans age s m q h = record {
  returned = refl;
  left = λ id. rw q (lookup-keep_active s.disk.now age id m h);
  size = rw q (length-keep_active s.disk.now age m);
  same_disk = refl;
}
