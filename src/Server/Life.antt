-- ===== src/Server/Life.antt =====
-- internal/network/server.go: `Stop` beside `acceptConnections` and the goroutines of
-- `handleConnection`, as steps.
pub mod Stopping
use yuclase.Base.{ℕ, suc, Bool, true, false, List, [], ◌∷◌, map}

-- The loop of `acceptConnections` runs, or it has returned.
pub data Acceptor : Type 0 where
  accepting returned : Acceptor

-- Where `Stop` is: not called, behind `s.cancel()`, behind `s.listener.Close()`, at `s.wg.Wait()`
-- behind the loop that closes the clients' connections, and behind that wait.
pub data Stopper : Type 0 where
  running cancelled unlistened waiting stopped : Stopper

-- A goroutine of `handleConnection`, with whether its connection is open: not yet in `s.clients`, in
-- it, in it for ever in a method of the queue that never returns, and out of it.
pub data Handler : Type 0 where
  accepted serving : Bool → Handler
  hung finished : Handler

pub data Life : Type 0 where
  life : Acceptor → Stopper → List Handler → Life

-- `GetClientCount`
unfoldable pub get_client_count : List Handler → ℕ
get_client_count [] = 0
get_client_count (accepted b ∷ hs) = get_client_count hs
get_client_count (serving b ∷ hs) = suc (get_client_count hs)
get_client_count (hung ∷ hs) = suc (get_client_count hs)
get_client_count (finished ∷ hs) = get_client_count hs

-- client.conn.Close() for each client in the table.
abbrev pub close_client : Handler → Handler
close_client (accepted b) = accepted b
close_client (serving b) = serving false
close_client hung = hung
close_client finished = finished

-- What a goroutine and its client do. A closed connection ends the loop over the lines.
pub data Moves : Handler → Handler → Type 0 where
  registers : {b : Bool} → Moves (accepted b) (serving b)
  hangs_up_early : Moves (accepted true) (accepted false)
  hangs_up : Moves (serving true) (serving false)
  hangs : {b : Bool} → Moves (serving b) hung
  ends : Moves (serving false) finished

-- One of the goroutines moves.
pub data OneMoves : List Handler → List Handler → Type 0 where
  this : {h g : Handler} {hs : List Handler} → Moves h g → OneMoves (h ∷ hs) (g ∷ hs)
  later : {h : Handler} {hs gs : List Handler} → OneMoves hs gs → OneMoves (h ∷ hs) (h ∷ gs)

pub data AreFinished : List Handler → Type 0 where
  none : AreFinished []
  one : {hs : List Handler} → AreFinished hs → AreFinished (finished ∷ hs)

-- The listener is open.
pub data IsListening : Stopper → Type 0 where
  before : IsListening running
  between : IsListening cancelled

-- `s.ctx` is done.
pub data IsCancelled : Stopper → Type 0 where
  early : IsCancelled cancelled
  shut : IsCancelled unlistened
  at_wait : IsCancelled waiting

-- A step of the acceptor, of a goroutine or its client, or of `Stop`. `Accept` fails on a closed
-- listener; the loop then ends when the context is done.
pub data Step : Life → Life → Type 0 where
  accept :
      {p : Stopper} {hs : List Handler}
      → IsListening p
      → Step (life accepting p hs) (life accepting p (accepted true ∷ hs))
  give_up :
      {p : Stopper} {hs : List Handler}
      → IsCancelled p
      → Step (life accepting p hs) (life returned p hs)
  move :
      {a : Acceptor} {p : Stopper} {hs gs : List Handler}
      → OneMoves hs gs
      → Step (life a p hs) (life a p gs)
  cancel : {a : Acceptor} {hs : List Handler} → Step (life a running hs) (life a cancelled hs)
  close_listener :
      {a : Acceptor} {hs : List Handler} → Step (life a cancelled hs) (life a unlistened hs)
  close_clients :
      {a : Acceptor} {hs : List Handler}
      → Step (life a unlistened hs) (life a waiting (map close_client hs))
  leave :
      {hs : List Handler}
      → AreFinished hs
      → Step (life returned waiting hs) (life returned stopped hs)

-- What can be reached.
pub data Reach (s : Life) : Life → Type 0 where
  here : Reach s s
  next : {t u : Life} → Reach s t → Step t u → Reach s u

-- `Start` has its listener, and the acceptor runs.
abbrev pub started : Life
started = life accepting running []
