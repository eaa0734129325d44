-- ===== src/Storage/Log/Writer/Writing.antt =====
-- The buffered writer of an open log, on a disk where no call fails.
use yuclase.Base.{
  ℕ, suc, ◌-◌, ◌≡◌, refl, sym, ap, ◌∙◌, false, Option, some, List, [], ◌∷◌, ◌++◌, length, take,
  drop, arith, leb, Bool-cases, inl, inr, append-nil, append_assoc, take-append-drop, ◌==◌,
}
use mathlib.Core.Path.{subst}
use yuclase.Base.Exec.{◌>>◌, ◌>>=◌, gets, bind_result}
use yuclase.Base.Int64.{ℤ}
use yuclase.Base.Exec.{Result, ok, write_call, sync_call}
use yuclase.Storage.Document.{Document}
use yuclase.Storage.Disk.{Disk, On, append_to, update}
use yuclase.Storage.Log.Writer.{
  Log, write, write_to, write_rest, write_handle, settle, flush, flush_writer, sync, sync_handle,
  LogM, set_log,
}

-- The files of the index and of the catalog.
abbrev pub side_files : Disk → Option (List ℕ) × Option Document
side_files d = (d.index_file, d.catalog_file)

-- The log of `s` writes to inode `i`; the file and the buffer together hold `c`; nothing else has
-- changed since `s₀`.
pub record Writing (i : ℕ) (c : List ℕ) (s₀ s : On Log) : Type 0 where
  pub buffer : List ℕ
  pub writer : s.self.writer ≡ some (record { buffered = buffer; broken = false })
  pub handle : s.self.file ≡ some (record { inode = i; closed = false })
  pub whole : s.disk.content i ++ buffer ≡ c
  pub size : s.self.current_size ≡ s₀.self.current_size
  pub max_size : s.self.max_size ≡ s₀.self.max_size
  pub segment : s.self.segment_index ≡ s₀.self.segment_index
  pub entries : s.disk.entries ≡ s₀.disk.entries
  pub failing : s.disk.failing ≡ s₀.disk.failing
  pub now : s.disk.now ≡ s₀.disk.now
  pub side : side_files s.disk ≡ side_files s₀.disk
  pub others : (j : ℕ) → (j == i) ≡ false → s.disk.content j ≡ s₀.disk.content j

abbrev appended : ℕ → List ℕ → Disk → Disk
appended i p d = record d {
  content = update d.content i (d.content i ++ p);
  modified = update d.modified i d.now;
}

-- After a write of `p` to the file, with `b` left in the buffer.
abbrev after_write : ℕ → List ℕ → List ℕ → On Log → On Log
after_write i p b s = record {
  self = record s.self { writer = some (record { buffered = b; broken = false }) };
  disk = appended i p s.disk;
}

update_at : (f : ℕ → List ℕ) (i : ℕ) (v : List ℕ) → update f i v i ≡ v
update_at f i v = ground arith

module _ (i : ℕ) (s : On Log) where
  write_handle_lem :
      (p b : List ℕ)
      → s.self.file ≡ some (record { inode = i; closed = false })
      → s.disk.failing write_call ≡ false
      → settle b (write_handle s.self.file p s) ≡ (ok tt, after_write i p b s)
  unfolding write_handle append_to settle
  write_handle_lem p b h f = rw (h, write_handle) (rw f)

module _ (i : ℕ) (c : List ℕ) (s₀ s : On Log) where
  -- a write to the file of the whole buffer and of `q`
  Writing-after_write :
      (q b p : List ℕ)
      → (w : Writing i c s₀ s) → q ++ b ≡ w.buffer ++ p
      → Writing i (c ++ p) s₀ (after_write i q b s)
  Writing-after_write q b p w e = record {
    buffer = b;
    writer = refl;
    handle = w.handle;
    whole =
        ap (λ t. t ++ b) (update_at s.disk.content i (s.disk.content i ++ q))
        ∙ append_assoc (s.disk.content i) q b
        ∙ ap (λ t. s.disk.content i ++ t) e
        ∙ sym (append_assoc (s.disk.content i) w.buffer p)
        ∙ ap (λ t. t ++ p) w.whole;
    size = w.size;
    max_size = w.max_size;
    segment = w.segment;
    entries = w.entries;
    failing = w.failing;
    now = w.now;
    side = w.side;
    others = λ j n. rw n (w.others j n);
  }

  -- a write to the buffer alone
  Writing-buffered :
      (p : List ℕ)
      → (w : Writing i c s₀ s)
      → Writing i (c ++ p) s₀ (record {
        self = record s.self {
          writer = some (record { buffered = w.buffer ++ p; broken = false });
        };
        disk = s.disk;
      })
  Writing-buffered p w = record {
    buffer = w.buffer ++ p;
    writer = refl;
    handle = w.handle;
    whole = sym (append_assoc (s.disk.content i) w.buffer p) ∙ ap (λ t. t ++ p) w.whole;
    size = w.size;
    max_size = w.max_size;
    segment = w.segment;
    entries = w.entries;
    failing = w.failing;
    now = w.now;
    side = w.side;
    others = w.others;
  }

abbrev Writes : ℕ → List ℕ → On Log → Result (Unit {0}) × On Log → Type 0
Writes i c s₀ r = (r.0 ≡ ok tt) × Writing i c s₀ r.1

module _ {i : ℕ} {c : List ℕ} {s₀ s : On Log} (healthy : s₀.disk.failing write_call ≡ false) where
  write_direct :
      (q b p : List ℕ)
      → (w : Writing i c s₀ s) → q ++ b ≡ w.buffer ++ p
      → Writes i (c ++ p) s₀ (settle b (write_handle s.self.file q s))
  write_direct q b p w e =
      rw (write_handle_lem i s q b w.handle (ap (λ f. f write_call) w.failing ∙ healthy))
        (refl, Writing-after_write i c s₀ s q b p w e)

  write_rest-Writes :
      (p : List ℕ) → (w : Writing i c s₀ s) → w.buffer ≡ [] → Writes i (c ++ p) s₀ (write_rest p s)
  unfolding write_rest
  write_rest-Writes p w e = elim (Bool-cases (leb (length p) 4096)) [
    | inl short ↦ rw short (refl, rw e at (Writing-buffered i c s₀ s p w))
    | inr long ↦ rw long (write_direct p [] p w (append-nil p ∙ ap (λ b. b ++ p) (sym e)))
  ]

module _ {i : ℕ} {c : List ℕ} {s₀ s : On Log} (healthy : s₀.disk.failing write_call ≡ false) where
  -- the buffer is filled up with `take room p` and written, then the rest follows
  filled_up :
      (b p : List ℕ) (room : ℕ)
      → (w : Writing i c s₀ s) → w.buffer ≡ b
      → Writes i (c ++ p) s₀ (
          ((λ t. settle [] (write_handle t.self.file (b ++ take room p) t))
              >> write_rest (drop room p))
            s)
  unfolding Writing-after_write
  filled_up b p room w e =
      let q = take room p in
      let full =
        Writing-after_write i c s₀ s (b ++ q) [] q w
          (append-nil (b ++ q) ∙ ap (λ t. t ++ q) (sym e)) in
      let joined : (c ++ q) ++ drop room p ≡ c ++ p =
        append_assoc c q (drop room p) ∙ ap (λ t. c ++ t) (take-append-drop room p) in
      rw (write_handle_lem i s (b ++ q) [] w.handle (ap (λ f. f write_call) w.failing ∙ healthy)) (
        subst (λ t. Writes i t s₀ (write_rest (drop room p) (after_write i (b ++ q) [] s))) joined
          (write_rest-Writes healthy (drop room p) full refl))

  write_to-Writes :
      (b p : List ℕ)
      → (w : Writing i c s₀ s) → w.buffer ≡ b
      → Writes i (c ++ p) s₀ (write_to (some (record { buffered = b; broken = false })) p s)
  unfolding write_to
  write_to-Writes [] p w e = elim (Bool-cases (leb (length p) 4096)) [
    | inl short ↦ rw short (refl, rw e at (Writing-buffered i c s₀ s p w))
    | inr long ↦ rw long (write_rest-Writes healthy p w e)
  ]
  write_to-Writes (b ∷ bs) p w e = elim (Bool-cases (leb (length p) (4096 - suc (length bs)))) [
    | inl short ↦ rw short (refl, rw e at (Writing-buffered i c s₀ s p w))
    | inr long ↦ rw long (filled_up (b ∷ bs) p (4096 - suc (length bs)) w e)
  ]

  pub write-Writes : (p : List ℕ) → Writing i c s₀ s → Writes i (c ++ p) s₀ (write p s)
  unfolding write
  write-Writes p w =
      subst (λ x. Writes i (c ++ p) s₀ (write_to x p s)) (sym w.writer)
        (write_to-Writes w.buffer p w refl)

-- `c` is in the file, and the buffer is empty.
abbrev pub Synced : ℕ → List ℕ → On Log → On Log → Type 0
Synced i c s₀ s = (w : Writing i c s₀ s) × (w.buffer ≡ [])

abbrev Syncs : ℕ → List ℕ → On Log → Result (Unit {0}) × On Log → Type 0
Syncs i c s₀ r = (r.0 ≡ ok tt) × Synced i c s₀ r.1

-- lastSync = time.Now()
abbrev stamp : LogM (Unit {0})
stamp = gets (λ s. s.disk.now) >>= λ now. set_log λ l. record l { last_sync = now }

module _ {i : ℕ} {c : List ℕ} {s₀ s : On Log} where
  flush_writer-Syncs :
      (b : List ℕ)
      → s₀.disk.failing write_call ≡ false
      → (w : Writing i c s₀ s) → w.buffer ≡ b
      → Syncs i c s₀ (flush_writer (some (record { buffered = b; broken = false })) s)
  unfolding flush_writer Writing-after_write
  flush_writer-Syncs [] healthy w e = (refl, (w, e))
  flush_writer-Syncs (b ∷ bs) healthy w e =
      let written =
        Writing-after_write i c s₀ s (b ∷ bs) [] [] w
          (append-nil (b ∷ bs) ∙ sym e ∙ sym (append-nil w.buffer)) in
      rw (write_handle_lem i s (b ∷ bs) [] w.handle (ap (λ f. f write_call) w.failing ∙ healthy)) (
        refl,
        (subst (λ t. (v : Writing i t s₀ (after_write i (b ∷ bs) [] s)) × (v.buffer ≡ []))
            (append-nil c) (written, refl)),
      )

  flush-Syncs : s₀.disk.failing write_call ≡ false → (w : Writing i c s₀ s) → Syncs i c s₀ (flush s)
  unfolding flush
  flush-Syncs healthy w =
      subst (λ x. Syncs i c s₀ (flush_writer x s)) (sym w.writer)
        (flush_writer-Syncs w.buffer healthy w refl)

  Synced-last_sync :
      (t : ℤ)
      → Synced i c s₀ s
      → Synced i c s₀ (record { self = record s.self { last_sync = t }; disk = s.disk })
  Synced-last_sync t (w, e) = (
    record {
      buffer = w.buffer;
      writer = w.writer;
      handle = w.handle;
      whole = w.whole;
      size = w.size;
      max_size = w.max_size;
      segment = w.segment;
      entries = w.entries;
      failing = w.failing;
      now = w.now;
      side = w.side;
      others = w.others;
    },
    e,
  )

  sync_tail :
      s₀.disk.failing sync_call ≡ false
      → Synced i c s₀ s
      → Syncs i c s₀ ((sync_handle s.self.file >> stamp) s)
  unfolding sync_handle Synced-last_sync
  sync_tail healthy (w, e) =
      subst (λ h. Syncs i c s₀ ((sync_handle h >> stamp) s)) (sym w.handle)
        (rw (ap (λ f. f sync_call) w.failing ∙ healthy) (refl, Synced-last_sync s.disk.now (w, e)))

module _ {i : ℕ} {c : List ℕ} {s₀ s : On Log} where
  -- `sync` moves the buffer to the file.
  pub sync-Syncs :
      s₀.disk.failing write_call ≡ false
      → s₀.disk.failing sync_call ≡ false
      → Writing i c s₀ s
      → Syncs i c s₀ (sync s)
  unfolding sync
  sync-Syncs can_write can_sync w =
      let (r, v) = flush-Syncs can_write w in
      subst
        (λ x.
          Syncs i c s₀ (bind_result x (λ _ t. (sync_handle t.self.file >> stamp) t) (flush s).1))
        (sym r) (sync_tail can_sync v)
