-- ===== src/Client/Program/Termination.antt =====
-- cmd/cli/main.go with internal/network/client.go: the program ends when its connection does.
use yuclase.Base.{◌≡◌}
use yuclase.Base.Exec.{Result}
use yuclase.Client.Connection.{Client, closed}
use yuclase.Client.Replies.Ending.{CameBack}
use yuclase.Client.Terminal.{Terminal}
use yuclase.Client.Program.{Exit, exited, crashed, hanging}

-- A round of the interactive mode comes back.
pub record Continues (r : Result (Unit {0}) × Terminal) : Type 0 where
  pub back : CameBack r.0
  pub ends : r.1.client.stream.ending ≡ closed

-- The program has an exit code or a panic.
abbrev pub HasEnded : Exit → Type 0
HasEnded (exited n) = Unit
HasEnded crashed = Unit
HasEnded hanging = ⊥
