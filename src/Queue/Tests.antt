-- ===== src/Queue/Tests.antt =====
-- The theorems on pkg/queue/queue.go at concrete inputs.
use yuclase.Base.{false}
use yuclase.Queue.Cleanup.{
  selecting, race, waiting, Reach, here, next, cancel, write_lock, IsNotReading, started,
}
use yuclase.Queue.Cleanup.Races.{InOrder, Reach-InOrder}

closing_early : Reach started (race waiting selecting false)
closing_early = next (next here (write_lock IsNotReading.at_select)) cancel

order_example : InOrder (race waiting selecting false)
order_example = Reach-InOrder closing_early
