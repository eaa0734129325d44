-- ===== src/Queue/Cleanup/Races.antt =====
-- What can happen between `Close` of pkg/queue/queue.go and the cleanup goroutine.
use yuclase.Base.{Bool}
use yuclase.Queue.Cleanup.{
  Closer, running, locked, waiting, closing, shut, Worker, selecting, ticked, reading, cleaning,
  ending, ended, Race, race, IsTicking, IsUnlocked, IsNotReading, Step, tick, take_tick, see_done,
  read_lock, read_unlock, clean, write_lock, cancel, meet, finish, Reach, here, next, started,
  jammed,
}

-- No step leads on.
no-Step : {t : Race} → Step jammed t → ⊥
no-Step (tick k) = elim k [ ]
no-Step (read_lock k) = elim k [ ]

-- `Close` and the goroutine can wait for each other: from the start of the queue there are steps to
-- a state in which `Close` holds the lock and waits for the goroutine to end, the goroutine waits
-- for the lock, and no step is possible.
pub jammed-Reach : Reach started jammed × ((t : Race) → Step jammed t → ⊥)
jammed-Reach = (
  next (next (next (next here (tick IsTicking.before)) take_tick) (write_lock IsNotReading.at_lock))
      cancel,
  λ t s. no-Step s,
)

-- The lock and the end of the goroutine agree with where `Close` is.
abbrev pub IsOrdered : Closer → Worker → Type 0
IsOrdered running ended = ⊥
IsOrdered running ending = ⊥
IsOrdered running w = Unit
IsOrdered locked reading = ⊥
IsOrdered locked ending = ⊥
IsOrdered locked ended = ⊥
IsOrdered locked w = Unit
IsOrdered waiting reading = ⊥
IsOrdered waiting ended = ⊥
IsOrdered waiting w = Unit
IsOrdered closing ended = Unit
IsOrdered closing w = ⊥
IsOrdered shut ended = Unit
IsOrdered shut w = ⊥

abbrev pub InOrder : Race → Type 0
InOrder (race c w p) = IsOrdered c w

Step-InOrder : {s t : Race} → Step s t → InOrder s → InOrder t
Step-InOrder (tick k) h = h
Step-InOrder (take_tick {c = running}) h = tt
Step-InOrder (take_tick {c = locked}) h = tt
Step-InOrder (take_tick {c = waiting}) h = tt
Step-InOrder (take_tick {c = closing}) h = h
Step-InOrder (take_tick {c = shut}) h = h
Step-InOrder see_done h = tt
Step-InOrder (read_lock IsUnlocked.before) h = tt
Step-InOrder (read_lock IsUnlocked.after) h = h
Step-InOrder (read_unlock {c = running}) h = tt
Step-InOrder (read_unlock {c = locked}) h = absurd h
Step-InOrder (read_unlock {c = waiting}) h = absurd h
Step-InOrder (read_unlock {c = closing}) h = h
Step-InOrder (read_unlock {c = shut}) h = h
Step-InOrder (clean {c = running}) h = tt
Step-InOrder (clean {c = locked}) h = tt
Step-InOrder (clean {c = waiting}) h = tt
Step-InOrder (clean {c = closing}) h = h
Step-InOrder (clean {c = shut}) h = h
Step-InOrder (write_lock IsNotReading.at_select) h = tt
Step-InOrder (write_lock IsNotReading.at_lock) h = tt
Step-InOrder (write_lock IsNotReading.at_work) h = tt
Step-InOrder (write_lock IsNotReading.at_end) h = h
Step-InOrder (write_lock IsNotReading.over) h = h
Step-InOrder (cancel {w = selecting}) h = tt
Step-InOrder (cancel {w = ticked}) h = tt
Step-InOrder (cancel {w = reading}) h = h
Step-InOrder (cancel {w = cleaning}) h = tt
Step-InOrder (cancel {w = ending}) h = absurd h
Step-InOrder (cancel {w = ended}) h = h
Step-InOrder meet h = tt
Step-InOrder (finish {w = selecting}) h = h
Step-InOrder (finish {w = ticked}) h = h
Step-InOrder (finish {w = reading}) h = h
Step-InOrder (finish {w = cleaning}) h = h
Step-InOrder (finish {w = ending}) h = h
Step-InOrder (finish {w = ended}) h = h

-- In every state that is reached, the goroutine reads only while `Close` has not taken the lock, and
-- it has ended when `Close` closes the topics and when it has returned.
pub Reach-InOrder : {t : Race} → Reach started t → InOrder t
Reach-InOrder here = tt
Reach-InOrder (next r s) = Step-InOrder s (Reach-InOrder r)

-- From `s` there are steps to the return of `Close`.
abbrev pub Returns : Race → Type 0
Returns s = (p : Bool) × Reach s (race shut ended p)
