-- ===== src/Consumer/Loop/Overtaking.antt =====
-- What can happen between `Stop` of pkg/queue/consumer.go and the goroutine of `consumeLoop`.
use yuclase.Base.{Bool, true, false}
use yuclase.Consumer.Loop.{
  Stopper, signalled, half_closed, stopped, Looper, selecting, polling, dequeuing, sending,
  updating, reporting, ended, panicked, Life, life, IsUnlocked, IsClosed, Step, tick, see_stop,
  read_offset, get_nothing, get_messages, fail, send, find_full, send_closed, send_more, send_last,
  report, report_closed, lock, signal, close_messages, close_errors, Reach, here, next, begun,
}

-- The signal has been sent.
pub data IsSignalled : Stopper → Type 0 where
  sent : IsSignalled signalled
  half : IsSignalled half_closed
  full : IsSignalled stopped

-- A panic comes after the channel is closed, and the end after the signal is sent.
abbrev pub OnlyAfter : Stopper → Looper → Type 0
OnlyAfter c panicked = IsClosed c
OnlyAfter c ended = IsSignalled c
OnlyAfter c w = Unit

abbrev pub IsTold : Stopper → Bool → Type 0
IsTold c true = IsSignalled c
IsTold c false = Unit

abbrev pub InOrder : Life → Type 0
InOrder (life c w g) = OnlyAfter c w × IsTold c g

-- `Stop` goes on from `c` to `d`.
module _ {c d : Stopper} (closed : IsClosed c → IsClosed d)
    (told : IsSignalled c → IsSignalled d) where
  OnlyAfter-later : (w : Looper) → OnlyAfter c w → OnlyAfter d w
  OnlyAfter-later selecting h = tt
  OnlyAfter-later polling h = tt
  OnlyAfter-later dequeuing h = tt
  OnlyAfter-later sending h = tt
  OnlyAfter-later updating h = tt
  OnlyAfter-later reporting h = tt
  OnlyAfter-later ended h = told h
  OnlyAfter-later panicked h = closed h

  IsTold-later : (g : Bool) → IsTold c g → IsTold d g
  IsTold-later true h = told h
  IsTold-later false h = tt

  InOrder-later : (w : Looper) (g : Bool) → InOrder (life c w g) → InOrder (life d w g)
  InOrder-later w g (h, k) = (OnlyAfter-later w h, IsTold-later g k)

Step-InOrder : {s t : Life} → Step s t → InOrder s → InOrder t
Step-InOrder tick (h, k) = (tt, k)
Step-InOrder see_stop (h, k) = (k, tt)
Step-InOrder (read_offset u) (h, k) = (tt, k)
Step-InOrder get_nothing (h, k) = (tt, k)
Step-InOrder get_messages (h, k) = (tt, k)
Step-InOrder fail (h, k) = (tt, k)
Step-InOrder (send u) (h, k) = (tt, k)
Step-InOrder (find_full u) (h, k) = (tt, k)
Step-InOrder (send_closed u) (h, k) = (u, k)
Step-InOrder (send_more u) (h, k) = (tt, k)
Step-InOrder (send_last u) (h, k) = (tt, k)
Step-InOrder (report u) (h, k) = (tt, k)
Step-InOrder report_closed (h, k) = (IsClosed.full, k)
Step-InOrder (lock {w = w} {g = g}) h = InOrder-later (λ u. elim u [ ]) (λ u. elim u [ ]) w g h
Step-InOrder (signal {w = w} {g = g}) h =
    let k = InOrder-later {d = signalled} (λ u. elim u [ ]) (λ u. elim u [ ]) w g h in
    (k.0, IsSignalled.sent)
Step-InOrder (close_messages {w = w} {g = g}) h =
    InOrder-later (λ u. elim u [ ]) (λ u. IsSignalled.half) w g h
Step-InOrder (close_errors {w = w} {g = g}) h =
    InOrder-later (λ u. IsClosed.full) (λ u. IsSignalled.full) w g h

-- In every state that is reached, a signal is there only when `Stop` has sent it, the goroutine has
-- ended only after that, and it has panicked only after `Stop` closed the channel of messages.
pub Reach-InOrder : {t : Life} → Reach begun t → InOrder t
Reach-InOrder here = (tt, tt)
Reach-InOrder (next r s) = Step-InOrder s (Reach-InOrder r)

-- `Stop` has returned and the goroutine is at its `select`, with the signal there.
abbrev pub idle : Life
idle = life stopped selecting true

-- `Stop` can be called of a running consumer and return while the goroutine is at its `select` with
-- the signal sent, and even from there steps lead to a panic: the `select` takes the tick, the poll
-- finds a message and sends it on the closed channel. A panic is reached only once `Stop` has closed
-- the channel of messages.
pub idle-Reach :
    Reach begun idle
    × Reach idle (life stopped panicked true)
    × ((c : Stopper) (g : Bool) → Reach begun (life c panicked g) → IsClosed c)
idle-Reach = (
  next (next (next (next here lock) signal) close_messages) close_errors,
  next (next (next (next here tick) (read_offset IsUnlocked.after)) get_messages)
      (send_closed IsClosed.full),
  λ c g r. (Reach-InOrder r).0,
)
