-- ===== src/Queue/Cleanup.antt =====
-- pkg/queue/queue.go: the cleanup goroutine of `startCleanup` beside a call of `Close`, as steps.
pub mod Races
use yuclase.Base.{Bool, true, false}

-- Where `Close` is: not called, under the lock, at `<-q.cleanupDone` after `q.cancel()` and the end
-- of the ticker, behind it, and returned.
pub data Closer : Type 0 where
  running locked waiting closing shut : Closer

-- Where the goroutine is: in the `select`, at `q.mu.RLock()` of `performCleanup`, under that lock,
-- behind `q.mu.RUnlock()`, at `q.cleanupDone <- true`, and ended.
pub data Worker : Type 0 where
  selecting ticked reading cleaning ending ended : Worker

-- The last component says whether a tick is in the ticker's channel.
pub data Race : Type 0 where
  race : Closer → Worker → Bool → Race

-- The ticker runs.
pub data IsTicking : Closer → Type 0 where
  before : IsTicking running
  under : IsTicking locked

-- `Close` does not hold the lock.
pub data IsUnlocked : Closer → Type 0 where
  before : IsUnlocked running
  after : IsUnlocked shut

-- The goroutine does not hold the lock.
pub data IsNotReading : Worker → Type 0 where
  at_select : IsNotReading selecting
  at_lock : IsNotReading ticked
  at_work : IsNotReading cleaning
  at_end : IsNotReading ending
  over : IsNotReading ended

-- A step of the ticker, the goroutine or `Close`. `cleanupDone` has no buffer, so its two ends meet.
pub data Step : Race → Race → Type 0 where
  tick : {c : Closer} {w : Worker} {p : Bool} → IsTicking c → Step (race c w p) (race c w true)
  take_tick : {c : Closer} → Step (race c selecting true) (race c ticked false)
  see_done : {p : Bool} → Step (race waiting selecting p) (race waiting ending p)
  read_lock : {c : Closer} {p : Bool} → IsUnlocked c → Step (race c ticked p) (race c reading p)
  read_unlock : {c : Closer} {p : Bool} → Step (race c reading p) (race c cleaning p)
  clean : {c : Closer} {p : Bool} → Step (race c cleaning p) (race c selecting p)
  write_lock : {w : Worker} {p : Bool} → IsNotReading w → Step (race running w p) (race locked w p)
  cancel : {w : Worker} {p : Bool} → Step (race locked w p) (race waiting w p)
  meet : {p : Bool} → Step (race waiting ending p) (race closing ended p)
  finish : {w : Worker} {p : Bool} → Step (race closing w p) (race shut w p)

-- What can be reached.
pub data Reach (s : Race) : Race → Type 0 where
  here : Reach s s
  next : {t u : Race} → Reach s t → Step t u → Reach s u

-- `NewQueue` has returned.
abbrev pub started : Race
started = race running selecting false

-- `Close` waits for the goroutine, which waits for the lock that `Close` holds.
abbrev pub jammed : Race
jammed = race waiting ticked false
