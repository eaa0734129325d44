-- ===== src/Topic/State/Locks.antt =====
-- Methods of a topic that is neither locked nor closed.
use yuclase.Base.{true, false, ◌≡◌, ◌∙◌, ap, if◌then◌else◌}
use yuclase.Base.Exec.{err, deadlock}
use yuclase.Storage.Disk.{On}
use yuclase.Topic.State.{Topic, TopicM, locking, read_locking, unlock, when_open, closed_error}

abbrev pub acquired : On Topic → On Topic
acquired s = record { self = record s.self { held = true }; disk = s.disk }

module _ {A : Type 0} (m : TopicM A) (s : On Topic) where
  pub locking_lem : s.self.held ≡ false → locking m s ≡ unlock (m (acquired s))
  locking_lem h = ap (λ b. if b then (deadlock, s) else unlock (m (acquired s))) h

  pub locking_held : s.self.held ≡ true → locking m s ≡ (deadlock, s)
  locking_held h = ap (λ b. if b then (deadlock, s) else unlock (m (acquired s))) h

  pub read_locking_lem : s.self.held ≡ false → read_locking m s ≡ m s
  read_locking_lem h = ap (λ b. if b then (deadlock, s) else m s) h

  pub read_locking_held : s.self.held ≡ true → read_locking m s ≡ (deadlock, s)
  read_locking_held h = ap (λ b. if b then (deadlock, s) else m s) h

  pub when_open_lem : s.self.closed ≡ false → when_open m s ≡ m s
  when_open_lem h = ap (λ b. if b then (err (closed_error s.self.name), s) else m s) h

  pub when_closed : s.self.closed ≡ true → when_open m s ≡ (err (closed_error s.self.name), s)
  when_closed h = ap (λ b. if b then (err (closed_error s.self.name), s) else m s) h

module _ {A : Type 0} (m : TopicM A) (s : On Topic) where
  -- The lock is taken and given back around `m`.
  pub method_lem :
      s.self.held ≡ false
      → s.self.closed ≡ false
      → locking (when_open m) s ≡ unlock (m (acquired s))
  method_lem held is_open =
      locking_lem (when_open m) s held ∙ ap unlock (when_open_lem m (acquired s) is_open)
