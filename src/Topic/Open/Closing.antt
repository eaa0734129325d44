-- ===== src/Topic/Open/Closing.antt =====
-- `Close` of pkg/queue/topic.go, part by part.
use yuclase.Base.{◌≡◌, ap, ◌∙◌, true, false, Option, List, [], ◌++◌}
use yuclase.Base.Exec.{Syscall, Error, Result, ok, bind_result}
use yuclase.Base.Bytes.{codes}
use yuclase.Storage.Document.{Document}
use yuclase.Storage.Disk.{Disk, On}
use yuclase.Storage.Log.Writer.{Log}
use yuclase.Storage.Log.Segments.{close as close_log}
use yuclase.Storage.Index.Entries.{Index}
use yuclase.Storage.Index.File.{close as close_index}
use yuclase.Storage.Index.File.RoundTrip.{all_bytes, with_file}
use yuclase.Storage.Index.File.Reopening.{
  IsSaved as IndexIsSaved, shut, close_lem as close_index_lem,
}
use yuclase.Storage.Catalog.Consumers.{Catalog}
use yuclase.Storage.Catalog.File.{close as close_catalog}
use yuclase.Storage.Catalog.File.Reopening.{with_files}
use yuclase.Topic.State.{Topic, on_log, on_index, on_catalog}
use yuclase.Topic.State.Locks.{acquired}
use yuclase.Topic.Messages.Delivery.{log_of}
use yuclase.Topic.Open.{close_parts, report, attempt}

-- The topic after a `Close`, when the catalog's files are `f` and `g`.
abbrev pub closed_with : Option Document → Option Document → On Log → On Topic → On Topic
closed_with f g l s = record {
  self = record s.self {
    held = false;
    log = l.self;
    index = (shut (record { self = s.self.index; disk = l.disk })).self;
    catalog = record s.self.catalog { dirty = false };
    closed = true;
  };
  disk = with_files f g (with_file (all_bytes s.self.index.entries) l.disk);
}

-- The rest of `Close` after each part.
abbrev after_catalog :
    List Error → List Error → Result (List Error) × On Topic → Result (Unit {0}) × On Topic
after_catalog a b (r, s) =
    bind_result r
      (λ c t. (
        report (codes "errors closing topic") (a ++ b ++ c),
        record { self = record t.self { closed = true }; disk = t.disk },
      ))
      s

abbrev after_index : List Error → Result (List Error) × On Topic → Result (Unit {0}) × On Topic
after_index a (r, s) =
    bind_result r
      (λ b t.
        after_catalog a b (attempt (codes "failed to close catalog") (on_catalog close_catalog) t))
      s

abbrev after_log : Result (List Error) × On Topic → Result (Unit {0}) × On Topic
after_log (r, s) =
    bind_result r
      (λ a t. after_index a (attempt (codes "failed to close index") (on_index close_index) t)) s

-- The topic after each part is closed.
abbrev after_parts : On Log → Index → Catalog → Disk → On Topic → On Topic
after_parts l i c d s = record {
  self = record s.self { held = true; log = l.self; index = i; catalog = c };
  disk = d;
}

-- The index and the catalog when it is their turn.
abbrev pub index_on : On Topic → On Log → On Index
index_on s l = record { self = s.self.index; disk = l.disk }

abbrev pub catalog_on : On Topic → On Log → On Catalog
catalog_on s l = record { self = s.self.catalog; disk = (shut (index_on s l)).disk }

module _ (s : On Topic) (l : On Log) (f g : Option Document)
    (healthy : (x : Syscall) → l.disk.failing x ≡ false) where
  pub close_parts_lem :
      close_log (log_of s) ≡ (ok tt, l)
      → IndexIsSaved (index_on s l)
      → close_catalog (catalog_on s l) ≡ (
        ok tt,
        record {
          self = record s.self.catalog { dirty = false };
          disk = with_files f g (catalog_on s l).disk;
        },
      )
      → close_parts (acquired s) ≡ (ok tt, acquired (closed_with f g l s))
  unfolding close_parts attempt
  close_parts_lem a h c =
      let t = after_parts l s.self.index s.self.catalog l.disk s in
      let u = after_parts l (shut (index_on s l)).self s.self.catalog (catalog_on s l).disk s in
      ap
        (λ (p : Result (Unit {0}) × On Log).
          after_log (attempt (codes "failed to close log") (on_log (λ _. p)) (acquired s)))
        a
      ∙ ap
          (λ (p : Result (Unit {0}) × On Index).
            after_index [] (attempt (codes "failed to close index") (on_index (λ _. p)) t))
          (close_index_lem (index_on s l) healthy h)
      ∙ ap
          (λ (p : Result (Unit {0}) × On Catalog).
            after_catalog [] [] (attempt (codes "failed to close catalog") (on_catalog (λ _. p)) u))
          c
