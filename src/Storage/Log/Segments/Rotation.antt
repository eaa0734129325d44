-- ===== src/Storage/Log/Segments/Rotation.antt =====
-- Opening and rotating segments: pkg/storage/log.go, `openCurrentSegment` and `rotateSegment`.
use yuclase.Base.{ℕ, ◌≡◌, refl, sym, ap, ◌∙◌, false, some, List, [], ◌++◌, length, ◌==◌, append-nil}
use yuclase.Base.Int64.{pos, add64}
use yuclase.Base.Exec.{Syscall, open_call, stat_call, read_dir_call, ok, write_call, sync_call}
use yuclase.Base.Assoc.{lookup}
use yuclase.Storage.Disk.{file, Disk, On, open_append, read_dir}
use yuclase.Storage.Segment.{segment_name, max_index}
use yuclase.Storage.Log.Writer.{Log, sync}
use yuclase.Storage.Log.Writer.Writing.{Writing, side_files, Synced, sync-Syncs}
use yuclase.Storage.Log.Segments.{
  find_latest_segment, open_current_segment, rotate_segment, stat_size, close_handle,
}

-- The directory has segment `k`, which is the latest, at inode `i`, with the bytes `c`; no call
-- fails.
pub record HasSegment (i k : ℕ) (c : List ℕ) (d : Disk) : Type 0 where
  pub linked : lookup (segment_name (pos k)) d.entries ≡ some (file i)
  pub latest : max_index (pos 0) d.entries ≡ pos k
  pub content : d.content i ≡ c
  pub healthy : (x : Syscall) → d.failing x ≡ false

-- An open log between two operations: the buffer is empty and the fields agree with the disk.
pub record IsOpen (i k : ℕ) (c : List ℕ) (s : On Log) : Type 0 where
  pub handle : s.self.file ≡ some (record { inode = i; closed = false })
  pub writer : s.self.writer ≡ some (record { buffered = []; broken = false })
  pub size : s.self.current_size ≡ pos (length c)
  pub segment : s.self.segment_index ≡ pos k
  pub on_disk : HasSegment i k c s.disk

module _ {i k : ℕ} {c : List ℕ} {d : Disk} (h : HasSegment i k c d) where
  find_latest_segment_lem : find_latest_segment d ≡ pos k
  unfolding find_latest_segment
  find_latest_segment_lem = rw (find_latest_segment, read_dir, h.healthy read_dir_call) h.latest

  open_append_lem : open_append (segment_name (pos k)) d ≡ (ok i, d)
  unfolding open_append
  open_append_lem = rw (h.healthy open_call) (rw h.linked)

  pub stat_size_lem : stat_size i d ≡ (ok (pos (length c)), d)
  unfolding stat_size
  stat_size_lem = rw (h.healthy stat_call) (rw h.content)

-- The log that `openCurrentSegment` leaves.
abbrev pub fresh : ℕ → ℕ → List ℕ → On Log → On Log
fresh i k c s = record s {
  self = record s.self {
    file = some (record { inode = i; closed = false });
    writer = some (record { buffered = []; broken = false });
    current_size = pos (length c);
    segment_index = pos k;
  };
}

module _ {i k : ℕ} {c : List ℕ} (s : On Log) (h : HasSegment i k c s.disk) where
  -- `openCurrentSegment` opens the latest segment of the directory, whatever the fields held.
  pub open_current_segment_lem : open_current_segment s ≡ (ok tt, fresh i k c s)
  unfolding open_current_segment
  open_current_segment_lem =
      rw (find_latest_segment_lem h) (rw (open_append_lem h) (rw (stat_size_lem h)))

  pub fresh-IsOpen : IsOpen i k c (fresh i k c s)
  fresh-IsOpen = record { handle = refl; writer = refl; size = refl; segment = refl; on_disk = h }

-- What an operation on the log of inode `i` leaves alone.
pub record KeepsRest (i : ℕ) (s t : On Log) : Type 0 where
  pub entries : t.disk.entries ≡ s.disk.entries
  pub now : t.disk.now ≡ s.disk.now
  pub side : side_files t.disk ≡ side_files s.disk
  pub max_size : t.self.max_size ≡ s.self.max_size
  pub others : (j : ℕ) → (j == i) ≡ false → t.disk.content j ≡ s.disk.content j

pub KeepsRest-refl : (i : ℕ) (s : On Log) → KeepsRest i s s
KeepsRest-refl i s = record {
  entries = refl;
  now = refl;
  side = refl;
  max_size = refl;
  others = λ j n. refl;
}

pub KeepsRest-trans : {i : ℕ} {s t u : On Log} → KeepsRest i s t → KeepsRest i t u → KeepsRest i s u
KeepsRest-trans a b = record {
  entries = b.entries ∙ a.entries;
  now = b.now ∙ a.now;
  side = b.side ∙ a.side;
  max_size = b.max_size ∙ a.max_size;
  others = λ j n. b.others j n ∙ a.others j n;
}

module _ {i k : ℕ} {c : List ℕ} {s : On Log} where
  pub IsOpen→Writing : IsOpen i k c s → Writing i c s s
  IsOpen→Writing o = record {
    buffer = [];
    writer = o.writer;
    handle = o.handle;
    whole = append-nil (s.disk.content i) ∙ o.on_disk.content;
    size = refl;
    max_size = refl;
    segment = refl;
    entries = refl;
    failing = refl;
    now = refl;
    side = refl;
    others = λ j n. refl;
  }

module _ {i k : ℕ} {b c : List ℕ} {s t : On Log} where
  pub Synced→HasSegment : HasSegment i k b s.disk → Synced i c s t → HasSegment i k c t.disk
  Synced→HasSegment h (w, e) = record {
    linked = ap (lookup (segment_name (pos k))) w.entries ∙ h.linked;
    latest = ap (max_index (pos 0)) w.entries ∙ h.latest;
    content =
        sym (append-nil (t.disk.content i)) ∙ ap (λ x. t.disk.content i ++ x) (sym e) ∙ w.whole;
    healthy = λ x. ap (λ f. f x) w.failing ∙ h.healthy x;
  }

module _ {i : ℕ} {c : List ℕ} {s t : On Log} where
  pub Synced→KeepsRest : Synced i c s t → KeepsRest i s t
  Synced→KeepsRest (w, e) = record {
    entries = w.entries;
    now = w.now;
    side = w.side;
    max_size = w.max_size;
    others = w.others;
  }

-- The log as `rotateSegment` hands it to `openCurrentSegment`.
abbrev turned : On Log → On Log
turned s = record s {
  self = record s.self {
    file = close_handle s.self.file;
    segment_index = add64 s.self.segment_index (pos 1);
    current_size = pos 0;
  };
}

module _ {i k : ℕ} {c : List ℕ} (s : On Log) where
  -- On an open log whose disk refuses no call, `rotateSegment` succeeds and comes back to the
  -- segment that was open: the same file, index and size, the same content, and no new file in the
  -- directory.
  pub rotate_segment_lem :
      IsOpen i k c s
      → ((rotate_segment s).0 ≡ ok tt)
        × IsOpen i k c (rotate_segment s).1
        × KeepsRest i s (rotate_segment s).1
  unfolding rotate_segment
  rotate_segment_lem o =
      let h = o.on_disk in
      let (r, v) = sync-Syncs (h.healthy write_call) (h.healthy sync_call) (IsOpen→Writing o) in
      let t = (sync s).1 in
      let g = Synced→HasSegment h v in
      let kept = Synced→KeepsRest v in
      rw (r, open_current_segment_lem (turned t) g)
        (
          refl,
          fresh-IsOpen (turned t) g,
          record {
            entries = kept.entries;
            now = kept.now;
            side = kept.side;
            max_size = kept.max_size;
            others = kept.others;
          },
        )
