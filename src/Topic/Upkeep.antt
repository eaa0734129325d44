-- ===== src/Topic/Upkeep.antt =====
-- pkg/queue/topic.go: `Sync` and `CleanupOldMessages`.
pub mod Orphans
use yuclase.Base.{ℕ, ◌+◌, Bool, false, none, some, List, [], ◌∷◌, ◌++◌, if◌then◌else◌}
use yuclase.Base.Int64.{ℤ, ltb_ℤ, pos_part, neg_part, sub_ℕ}
use yuclase.Base.Bytes.{codes}
use yuclase.Base.Exec.{stat_call, Result, pure, gets, wrapping, ◌>>=◌, ◌>>◌}
use yuclase.Base.Assoc.{lookup}
use yuclase.Config.{get_retention_duration}
use yuclase.Storage.Disk.{Disk, on_disk, sub_directory, file}
use yuclase.Storage.Log.Writer.{sync as sync_log}
use yuclase.Storage.Log.Segments.{list_segments, delete_segment}
use yuclase.Storage.Index.File.{sync as sync_index}
use yuclase.Storage.Index.Rebuild.{rebuild}
use yuclase.Storage.Catalog.File.{sync as sync_catalog}
use yuclase.Topic.State.{TopicM, locking, on_log, on_index, on_catalog, when_open}

-- `Sync` under the lock, on an open topic; `saveMetadata` does nothing.
unfoldable pub sync_body : TopicM (Unit {0})
sync_body = do
  wrapping (codes "failed to sync log") (on_log sync_log)
  wrapping (codes "failed to sync index") (on_index sync_index)
  wrapping (codes "failed to sync catalog") (on_catalog sync_catalog)

-- `Sync`
unfoldable pub sync : TopicM (Unit {0})
sync = locking (when_open sync_body)

-- stat.ModTime().Before(retentionTime); a name that cannot be read is skipped.
unfoldable pub is_old : ℤ → Disk → List ℕ → Bool
is_old limit d name = if d.failing stat_call then false else elim (lookup name d.entries) [
  | none ↦ false
  | some sub_directory ↦ false
  | some (file i) ↦ ltb_ℤ (d.modified i) limit
]

unfoldable pub old_segments : ℤ → Disk → List (List ℕ) → List (List ℕ)
old_segments limit d [] = []
old_segments limit d (name ∷ names) =
    let rest = old_segments limit d names in if is_old limit d name then name ∷ rest else rest

unfoldable pub delete_segments : List (List ℕ) → Disk → Result (Unit {0}) × Disk
delete_segments [] = pure tt
delete_segments (name ∷ names) =
    wrapping (codes "failed to delete segment " ++ name) (delete_segment name)
    >> delete_segments names

-- time.Now().Add(-retention)
abbrev retention_time : ℤ → ℤ → ℤ
retention_time now retention =
    sub_ℕ (pos_part now + neg_part retention) (neg_part now + pos_part retention)

-- if len(toDelete) > 0
rebuild_after : List (List ℕ) → TopicM (Unit {0})
rebuild_after [] = pure tt
rebuild_after (name ∷ names) = wrapping (codes "failed to rebuild index") (on_index rebuild)

-- `CleanupOldMessages` under the lock, on an open topic.
unfoldable pub cleanup_body : TopicM (Unit {0})
unfolding rebuild_after
cleanup_body = do
  limit ← gets (λ s. retention_time s.disk.now (get_retention_duration s.self.config))
  names ← wrapping (codes "failed to list segments") (on_disk list_segments)
  doomed ← gets (λ s. old_segments limit s.disk names)
  on_disk (delete_segments doomed)
  rebuild_after doomed

-- `CleanupOldMessages`
unfoldable pub cleanup_old_messages : TopicM (Unit {0})
cleanup_old_messages = locking (when_open cleanup_body)
