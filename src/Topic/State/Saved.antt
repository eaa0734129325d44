-- ===== src/Topic/State/Saved.antt =====
-- What the files of the index and of the catalog of a topic have.
use yuclase.Storage.Disk.{On}
use yuclase.Storage.Index.File.Reopening.{IsSaved as IndexIsSaved}
use yuclase.Storage.Catalog.File.Reopening.{IsSaved as CatalogIsSaved}
use yuclase.Topic.State.{Topic}

-- What is not in the files of the index and of the catalog is marked dirty in memory.
pub record IsSaved (s : On Topic) : Type 0 where
  pub index : IndexIsSaved (record { self = s.self.index; disk = s.disk })
  pub catalog : CatalogIsSaved (record { self = s.self.catalog; disk = s.disk })
