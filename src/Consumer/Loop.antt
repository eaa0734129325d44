-- ===== src/Consumer/Loop.antt =====
-- pkg/queue/consumer.go: the goroutine of `consumeLoop` beside a call of `Stop`, as steps.
pub mod Overtaking
use yuclase.Base.{Bool, true, false}

-- Where `Stop` is: not called, under the lock, behind the send on `stopChan`, behind
-- `close(c.messageChan)`, and returned, behind `close(c.errorChan)`.
pub data Stopper : Type 0 where
  uncalled locked signalled half_closed stopped : Stopper

-- Where the goroutine is: in the `select`, at the first `c.mu.Lock()` of `pollMessages`, in
-- `DequeueWithLimit`, at the `select` that sends a message, at the `c.mu.Lock()` behind it, at the
-- send of an error, ended, and dead of a panic.
pub data Looper : Type 0 where
  selecting polling dequeuing sending updating reporting ended panicked : Looper

-- The last component says whether `stopChan` holds a signal.
pub data Life : Type 0 where
  life : Stopper → Looper → Bool → Life

-- `Stop` does not hold the lock of the consumer.
pub data IsUnlocked : Stopper → Type 0 where
  before : IsUnlocked uncalled
  after : IsUnlocked stopped

-- `messageChan` is closed.
pub data IsClosed : Stopper → Type 0 where
  half : IsClosed half_closed
  full : IsClosed stopped

-- `messageChan` is not closed.
pub data IsSending : Stopper → Type 0 where
  early : IsSending uncalled
  under : IsSending locked
  later : IsSending signalled

-- `errorChan` is not closed.
pub data IsReporting : Stopper → Type 0 where
  early : IsReporting uncalled
  under : IsReporting locked
  later : IsReporting signalled
  last : IsReporting half_closed

-- A step of the goroutine or of `Stop`. The `select` of `consumeLoop` takes either channel when both
-- are ready, and the locks of `pollMessages` are held for a moment only.
pub data Step : Life → Life → Type 0 where
  tick : {c : Stopper} {g : Bool} → Step (life c selecting g) (life c polling g)
  see_stop : {c : Stopper} → Step (life c selecting true) (life c ended false)
  read_offset :
      {c : Stopper} {g : Bool} → IsUnlocked c → Step (life c polling g) (life c dequeuing g)
  get_nothing : {c : Stopper} {g : Bool} → Step (life c dequeuing g) (life c selecting g)
  get_messages : {c : Stopper} {g : Bool} → Step (life c dequeuing g) (life c sending g)
  fail : {c : Stopper} {g : Bool} → Step (life c dequeuing g) (life c reporting g)
  send : {c : Stopper} {g : Bool} → IsSending c → Step (life c sending g) (life c updating g)
  find_full : {c : Stopper} {g : Bool} → IsSending c → Step (life c sending g) (life c selecting g)
  send_closed : {c : Stopper} {g : Bool} → IsClosed c → Step (life c sending g) (life c panicked g)
  send_more : {c : Stopper} {g : Bool} → IsUnlocked c → Step (life c updating g) (life c sending g)
  send_last :
      {c : Stopper} {g : Bool} → IsUnlocked c → Step (life c updating g) (life c selecting g)
  report : {c : Stopper} {g : Bool} → IsReporting c → Step (life c reporting g) (life c selecting g)
  report_closed : {g : Bool} → Step (life stopped reporting g) (life stopped panicked g)
  lock : {w : Looper} {g : Bool} → Step (life uncalled w g) (life locked w g)
  signal : {w : Looper} {g : Bool} → Step (life locked w g) (life signalled w true)
  close_messages : {w : Looper} {g : Bool} → Step (life signalled w g) (life half_closed w g)
  close_errors : {w : Looper} {g : Bool} → Step (life half_closed w g) (life stopped w g)

-- What can be reached.
pub data Reach (s : Life) : Life → Type 0 where
  here : Reach s s
  next : {t u : Life} → Reach s t → Step t u → Reach s u

-- `Start` has returned.
abbrev pub begun : Life
begun = life uncalled selecting false
