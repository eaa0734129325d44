-- ===== src/Server/Life/Stopping.antt =====
-- internal/network/server.go: when `Stop` returns, and when it does not.
use yuclase.Base.{Bool, true, false, List, [], ◌∷◌, ◌≡◌, refl, ap, ◌⊎◌, inl, inr}
use yuclase.Server.Life.{
  accepting, returned, running, cancelled, unlistened, waiting, stopped, Handler, serving, hung,
  finished, Life, life, registers, hangs_up, hangs, OneMoves, this, later, AreFinished, one,
  IsListening, IsCancelled, Step, accept, give_up, move, cancel, close_listener, close_clients,
  leave, Reach, here, next, started,
}

-- `Stop` waits for a goroutine whose connection nobody closes.
abbrev pub lost : Life
lost = life returned waiting (serving true ∷ [])

-- What can follow: the client hangs up, or a method of the queue never returns.
abbrev pub LostStep : Life → Type 0
LostStep t =
    (t ≡ life returned waiting (serving false ∷ [])) ⊎ (t ≡ life returned waiting (hung ∷ []))

lost-OneMoves :
    {hs : List Handler}
    → OneMoves (serving true ∷ []) hs
    → (hs ≡ serving false ∷ []) ⊎ (hs ≡ hung ∷ [])
lost-OneMoves (this hangs_up) = inl refl
lost-OneMoves (this hangs) = inr refl
lost-OneMoves (later k) = elim k [ ]

lost-LostStep : {t : Life} → Step lost t → LostStep t
lost-LostStep (move k) = elim (lost-OneMoves k) [
  | inl closes ↦ inl (ap (life returned waiting) closes)
  | inr blocks ↦ inr (ap (life returned waiting) blocks)
]
lost-LostStep (leave k) = elim k [ ]

-- `Stop` can miss a connection: from the start there are steps to a state in which it waits for a
-- goroutine whose connection is open, since that came into the table behind the loop that closes
-- the connections, and from there only the client, who may stay silent, or a method of the queue
-- that never returns leads on.
pub lost-Reach : Reach started lost × ((t : Life) → Step lost t → LostStep t)
lost-Reach = (
  next
      (next
        (next (next (next (next here (accept IsListening.before)) cancel) close_listener)
          (give_up IsCancelled.shut))
        close_clients)
      (move (this registers)),
  λ t s. lost-LostStep s,
)

-- What holds of the states that are reached.
abbrev pub InOrder : Life → Type 0
InOrder (life accepting stopped hs) = ⊥
InOrder (life accepting p hs) = Unit {0}
InOrder (life returned running hs) = ⊥
InOrder (life returned stopped hs) = AreFinished hs
InOrder (life returned p hs) = Unit {0}

finished_stay : {hs gs : List Handler} → OneMoves hs gs → AreFinished hs → ⊥
finished_stay (this m) (one f) = elim m [ ]
finished_stay (later k) (one f) = finished_stay k f

Step-InOrder : {s t : Life} → Step s t → InOrder s → InOrder t
Step-InOrder (accept IsListening.before) h = tt
Step-InOrder (accept IsListening.between) h = tt
Step-InOrder (give_up IsCancelled.early) h = tt
Step-InOrder (give_up IsCancelled.shut) h = tt
Step-InOrder (give_up IsCancelled.at_wait) h = tt
Step-InOrder (move {a = accepting} {p = running} k) h = tt
Step-InOrder (move {a = accepting} {p = cancelled} k) h = tt
Step-InOrder (move {a = accepting} {p = unlistened} k) h = tt
Step-InOrder (move {a = accepting} {p = waiting} k) h = tt
Step-InOrder (move {a = accepting} {p = stopped} k) h = h
Step-InOrder (move {a = returned} {p = running} k) h = h
Step-InOrder (move {a = returned} {p = cancelled} k) h = tt
Step-InOrder (move {a = returned} {p = unlistened} k) h = tt
Step-InOrder (move {a = returned} {p = waiting} k) h = tt
Step-InOrder (move {a = returned} {p = stopped} k) h = absurd (finished_stay k h)
Step-InOrder (cancel {a = accepting}) h = tt
Step-InOrder (cancel {a = returned}) h = tt
Step-InOrder (close_listener {a = accepting}) h = tt
Step-InOrder (close_listener {a = returned}) h = tt
Step-InOrder (close_clients {a = accepting}) h = tt
Step-InOrder (close_clients {a = returned}) h = tt
Step-InOrder (leave f) h = f

-- In every state that is reached, the acceptor has not returned before `Stop` is called, and when
-- `Stop` goes on to close the queue, the acceptor and every goroutine of a connection have ended.
pub Reach-InOrder : {t : Life} → Reach started t → InOrder t
Reach-InOrder here = tt
Reach-InOrder (next r s) = Step-InOrder s (Reach-InOrder r)

-- Every connection is in the table, or its goroutine has ended, and no method of the queue hangs.
pub data AreServed : List Handler → Type 0 where
  empty : AreServed []
  some_open : {b : Bool} → {hs : List Handler} → AreServed hs → AreServed (serving b ∷ hs)
  over : {hs : List Handler} → AreServed hs → AreServed (finished ∷ hs)

-- The steps of the goroutines.
data Runs : List Handler → List Handler → Type 0 where
  stay : {hs : List Handler} → Runs hs hs
  go : {hs gs fs : List Handler} → OneMoves hs gs → Runs gs fs → Runs hs fs

-- From `s` there are steps to the end of the wait of `Stop`.
abbrev pub Stops : Life → Type 0
Stops s = (hs : List Handler) × AreFinished hs × Reach s (life returned stopped hs)
