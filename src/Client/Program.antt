-- ===== src/Client/Program.antt =====
-- cmd/cli/main.go: the program around the client.
pub mod Termination
use yuclase.Base.{ℕ, ◌≡◌, refl, true, List, [], ◌∷◌, ◌++◌}
use yuclase.Base.Bytes.{codes}
use yuclase.Base.Exec.{Error, error_text, Result, ok, err, panic, deadlock, stuck}
use yuclase.Client.Connection.{Client, Stream, new_client, connect}
use yuclase.Client.Requests.{send_command, disconnect}
use yuclase.Client.Terminal.{Terminal, start_interactive_mode}

-- How the program ends: with an exit code, with a panic, or never.
pub data Exit : Type 0 where
  exited : ℕ → Exit
  crashed hanging : Exit

-- What the program leaves: `errors` is what it wrote to the standard error, less the time.
pub record Process : Type 0 where
  pub exit : Exit
  pub terminal : Terminal
  pub errors : List ℕ

-- log.Fatalf("…: %v", err): the program ends with code 1, and no deferred call runs.
abbrev fatal : List ℕ → Error → Terminal → Process
fatal message e t = record {
  exit = exited 1;
  terminal = t;
  errors = message ++ codes ": " ++ error_text e ++ 10 ∷ [];
}

abbrev ends : Exit → Terminal → Process
ends x t = record { exit = x; terminal = t; errors = [] }

-- The deferred `Disconnect`, whose error is dropped, and how the program ends behind it.
abbrev after_disconnect : Exit → List ℕ → Result (Unit {0}) × Client → Process
after_disconnect x out (ok u, c) = ends x (record { client = c; printed = out })
after_disconnect x out (err e, c) = ends x (record { client = c; printed = out })
after_disconnect x out (panic, c) = ends crashed (record { client = c; printed = out })
after_disconnect x out (deadlock, c) = ends hanging (record { client = c; printed = out })
after_disconnect x out (stuck, c) = ends hanging (record { client = c; printed = out })

module _ (closing : Result (Unit {0})) where
  abbrev leave : Exit → Terminal → Process
  leave x t = after_disconnect x t.printed (disconnect closing t.client)

  -- A single command. `os.Exit(1)` runs no deferred call either; a panic does.
  after_command : List ℕ → Result (List ℕ) × Client → Process
  unfolding disconnect
  after_command out (ok response, c) =
      leave (exited 0) (record { client = c; printed = out ++ response ++ 10 ∷ [] })
  after_command out (err e, c) =
      ends (exited 1)
        (record { client = c; printed = out ++ codes "Error: " ++ error_text e ++ 10 ∷ [] })
  after_command out (panic, c) = leave crashed (record { client = c; printed = out })
  after_command out (deadlock, c) = ends hanging (record { client = c; printed = out })
  after_command out (stuck, c) = ends hanging (record { client = c; printed = out })

  after_session : Result (Unit {0}) × Terminal → Process
  unfolding disconnect
  after_session (ok u, t) = leave (exited 0) t
  after_session (err e, t) = fatal (codes "Interactive mode failed") e t
  after_session (panic, t) = leave crashed t
  after_session (deadlock, t) = ends hanging t
  after_session (stuck, t) = ends hanging t

  -- if *command != ""
  work : List ℕ → List (List ℕ) → Client → Process
  unfolding after_command after_session send_command start_interactive_mode
  work [] inputs c =
      after_session (start_interactive_mode inputs (record { client = c; printed = [] }))
  work (b ∷ bs) inputs c = after_command [] (send_command (b ∷ bs) c)

  connected : List ℕ → List (List ℕ) → Result (Unit {0}) × Client → Process
  unfolding work
  connected command inputs (ok u, c) = work command inputs c
  connected command inputs (err e, c) =
      fatal (codes "Failed to connect to server") e (record { client = c; printed = [] })
  connected command inputs (panic, c) = ends crashed (record { client = c; printed = [] })
  connected command inputs (deadlock, c) = ends hanging (record { client = c; printed = [] })
  connected command inputs (stuck, c) = ends hanging (record { client = c; printed = [] })

  -- `main`, by the flags, what `net.DialTimeout` gives, the lines of the standard input and what
  -- `conn.Close` returns.
  unfoldable pub main : List ℕ → List ℕ → Result Stream → List (List ℕ) → Process
  unfolding connected connect new_client
  main address command dialled inputs =
      connected command inputs (connect dialled (new_client address))
