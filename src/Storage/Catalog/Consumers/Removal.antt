-- ===== src/Storage/Catalog/Consumers/Removal.antt =====
-- `RemoveConsumer` and `CommitOffset` of pkg/storage/catalog.go.
use yuclase.Base.{
  ℕ, ◌≡◌, refl, sym, ap, ◌∙◌, true, Option, none, some, List, if◌then◌else◌, bytes_eq,
  bytes_eq_refl, bytes_eq_sound, Option-cases, Bool-cases, inl, inr,
}
use mathlib.Core.Path.{subst}
use yuclase.Base.Int64.{ℤ, pos}
use yuclase.Base.Exec.{Result, ok, err}
use yuclase.Base.Assoc.{lookup, insert, remove, lookup-insert, lookup-remove}
use yuclase.Storage.Document.{ConsumerOffset}
use yuclase.Storage.Disk.{On}
use yuclase.Storage.Catalog.Consumers.{
  Catalog, get_offset, find, not_found, remove_consumer, commit_offset, offset_or_start,
  map_entries, store,
}

module _ (id : List ℕ) (s : On Catalog) (m : List (List ℕ × ConsumerOffset)) where
  find_lem : s.self.consumers ≡ some m → find id s.self ≡ lookup id m
  find_lem q = ap (λ c. find id (record { consumers = c; dirty = s.self.dirty })) q

  remove_known :
      (c : ConsumerOffset)
      → s.self.consumers ≡ some m
      → lookup id m ≡ some c
      → remove_consumer id s ≡ (
        ok tt,
        record { self = record { consumers = some (remove id m); dirty = true }; disk = s.disk },
      )
  unfolding remove_consumer
  remove_known c q known =
      rw (q, remove_consumer) (rw (known, remove_consumer) (rw (q, map_entries) refl))

  remove_unknown :
      s.self.consumers ≡ some m
      → lookup id m ≡ none
      → remove_consumer id s ≡ (err (not_found id), s)
  unfolding remove_consumer
  remove_unknown q unknown = rw (find_lem q ∙ unknown, remove_consumer) refl

-- The outcome of a removal: the consumer is forgotten and begins at 0 again.
pub record Removes (id : List ℕ) (m : List (List ℕ × ConsumerOffset)) (answer : Result (Unit {0}))
    (r : Result (Unit {0}) × On Catalog) : Type 0 where
  pub returned : r.0 ≡ answer
  pub entries : (j : List ℕ) → find j r.1.self ≡ (if bytes_eq id j then none else lookup j m)
  pub restart : get_offset id r.1.self ≡ pos 0

-- What `RemoveConsumer` and `CommitOffset` return, by what the catalog holds for the consumer.
abbrev pub answer : List ℕ → Option ConsumerOffset → Result (Unit {0})
answer id none = err (not_found id)
answer id (some c) = ok tt

-- Where `id` is unknown, forgetting it changes nothing.
forget_unknown :
    (id j : List ℕ) (m : List (List ℕ × ConsumerOffset))
    → lookup id m ≡ none
    → lookup j m ≡ (if bytes_eq id j then none else lookup j m)
forget_unknown id j m h = elim (Bool-cases (bytes_eq id j)) [
  | inl same ↦ rw same (subst (λ x. lookup x m ≡ none) (bytes_eq_sound id j same) h)
  | inr other ↦ rw other refl
]

module _ (id : List ℕ) (s : On Catalog) (m : List (List ℕ × ConsumerOffset)) where
  -- `RemoveConsumer` succeeds on a consumer that the catalog knows and returns an error on any
  -- other; after either, the consumer is unknown, its offset is 0, and every other entry is as it
  -- was.
  pub remove_consumer-Removes :
      s.self.consumers ≡ some m → Removes id m (answer id (lookup id m)) (remove_consumer id s)
  unfolding get_offset
  remove_consumer-Removes q = elim (Option-cases (lookup id m)) [
    | inl unknown ↦
        subst (Removes id m (answer id (lookup id m))) (sym (remove_unknown id s m q unknown))
          (record {
            returned = ap (answer id) (sym unknown);
            entries = λ j. find_lem j s m q ∙ forget_unknown id j m unknown;
            restart = ap offset_or_start (find_lem id s m q ∙ unknown);
          })
    | inr (c, known) ↦
        subst (Removes id m (answer id (lookup id m))) (sym (remove_known id s m c q known))
          (record {
            returned = ap (answer id) (sym known);
            entries = λ j. lookup-remove id j m;
            restart = ap offset_or_start (
                lookup-remove id id m
                ∙ ap (λ b. if b then none else lookup id m) (bytes_eq_refl id));
          })
  ]

abbrev stamp : ℤ → ConsumerOffset → ConsumerOffset
stamp now c = record c { last_commit = now }

abbrev stamped : ℤ → Option ConsumerOffset → Option ConsumerOffset
stamped now none = none
stamped now (some c) = some (stamp now c)

offset-stamped :
    (now : ℤ) (o : Option ConsumerOffset) → offset_or_start (stamped now o) ≡ offset_or_start o
unfolding offset_or_start
offset-stamped now none = refl
offset-stamped now (some c) = refl

-- The outcome of a commit: the offsets are as they were, and the commit time is now.
pub record Commits (id : List ℕ) (m : List (List ℕ × ConsumerOffset)) (s : On Catalog)
    (r : Result (Unit {0}) × On Catalog) : Type 0 where
  pub returned : r.0 ≡ answer id (lookup id m)
  pub entries :
      (j : List ℕ)
      → find j r.1.self ≡ (if bytes_eq id j then stamped s.disk.now (lookup id m) else lookup j m)
  pub offsets : (j : List ℕ) → get_offset j r.1.self ≡ get_offset j s.self

module _ (id : List ℕ) (s : On Catalog) (m : List (List ℕ × ConsumerOffset)) where
  commit_known :
      (c : ConsumerOffset)
      → s.self.consumers ≡ some m
      → lookup id m ≡ some c
      → commit_offset id s ≡ (
        ok tt,
        record {
          self = record { consumers = some (insert id (stamp s.disk.now c) m); dirty = true };
          disk = s.disk;
        },
      )
  unfolding commit_offset
  commit_known c q known = rw (q, commit_offset) (rw (known, commit_offset) (rw (q, store) refl))

  commit_unknown :
      s.self.consumers ≡ some m → lookup id m ≡ none → commit_offset id s ≡ (err (not_found id), s)
  unfolding commit_offset
  commit_unknown q unknown = rw (find_lem id s m q ∙ unknown, commit_offset) refl

  -- An entry after a commit, by the entry before it.
  entry_after :
      (o : Option ConsumerOffset) (j : List ℕ)
      → lookup id m ≡ o
      → find j s.self ≡ lookup j m
      → find j (commit_offset id s).1.self
        ≡ (if bytes_eq id j then stamped s.disk.now o else lookup j m)
      → get_offset j (commit_offset id s).1.self ≡ get_offset j s.self
  unfolding get_offset
  entry_after o j known before after = elim (Bool-cases (bytes_eq id j)) [
    | inl same ↦
        ap offset_or_start after
        ∙ rw same (
            offset-stamped s.disk.now o
            ∙ ap offset_or_start
                (sym known ∙ ap (λ x. lookup x m) (bytes_eq_sound id j same) ∙ sym before))
    | inr other ↦ ap offset_or_start after ∙ rw other (ap offset_or_start (sym before))
  ]

  commit_entries :
      (o : Option ConsumerOffset) (j : List ℕ)
      → s.self.consumers ≡ some m
      → lookup id m ≡ o
      → find j (commit_offset id s).1.self
        ≡ (if bytes_eq id j then stamped s.disk.now o else lookup j m)
  commit_entries none j q unknown =
      ap (λ r. find j r.1.self) (commit_unknown q unknown)
      ∙ find_lem j s m q
      ∙ forget_unknown id j m unknown
  commit_entries (some c) j q known =
      ap (λ r. find j r.1.self) (commit_known c q known) ∙ lookup-insert id j (stamp s.disk.now c) m

  commit_answer :
      (o : Option ConsumerOffset)
      → s.self.consumers ≡ some m
      → lookup id m ≡ o
      → (commit_offset id s).0 ≡ answer id o
  commit_answer none q unknown = ap (λ r. r.0) (commit_unknown q unknown)
  commit_answer (some c) q known = ap (λ r. r.0) (commit_known c q known)

  -- `CommitOffset` succeeds on a consumer that the catalog knows, whose commit time is then the
  -- current time, and returns an error on any other; no consumer's offset changes.
  pub commit_offset-Commits : s.self.consumers ≡ some m → Commits id m s (commit_offset id s)
  commit_offset-Commits q = record {
    returned = commit_answer (lookup id m) q refl;
    entries = λ j. commit_entries (lookup id m) j q refl;
    offsets = λ j.
        entry_after (lookup id m) j refl (find_lem j s m q) (commit_entries (lookup id m) j q refl);
  }
