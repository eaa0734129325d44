-- ===== src/Client/Terminal.antt =====
-- internal/network/client.go: the interactive mode.
use yuclase.Base.{ℕ, Bool, List, [], ◌∷◌, ◌++◌, bytes_eq, ◌||◌, if◌then◌else◌}
use yuclase.Base.Bytes.{codes}
use yuclase.Base.Text.{trim_space, to_lower}
use yuclase.Base.Exec.{eof, wrap, error_text, Result, ok, err, panic, deadlock, stuck, Exec}
use yuclase.Client.Connection.{Client}
use yuclase.Client.Requests.{send_command}

pub record Terminal : Type 0 where
  pub client : Client
  pub printed : List ℕ

abbrev pub TerminalM : Type 0 → Type 0
TerminalM A = Exec Terminal A

abbrev pub prompt : List ℕ
prompt = codes "yuclase> "

abbrev pub banner : List ℕ
banner = codes "Yuclase CLI - Type 'help' for available commands, 'quit' to exit" ++ 10 ∷ []

abbrev pub print : List ℕ → Terminal → Terminal
print s t = record t { printed = t.printed ++ s }

-- What a command gave is printed; the loop goes on after an error.
abbrev pub shown : List ℕ → Result (List ℕ) × Client → Result (Unit {0}) × Terminal
shown out (ok s, c) = (ok tt, record { client = c; printed = out ++ s ++ 10 ∷ [] })
shown out (err e, c) =
    (ok tt, record { client = c; printed = out ++ codes "Error: " ++ error_text e ++ 10 ∷ [] })
shown out (panic, c) = (panic, record { client = c; printed = out })
shown out (deadlock, c) = (deadlock, record { client = c; printed = out })
shown out (stuck, c) = (stuck, record { client = c; printed = out })

abbrev pub continued :
    Result (Unit {0}) × Terminal → TerminalM (Unit {0}) → Result (Unit {0}) × Terminal
continued (ok u, t) k = k t
continued (err e, t) k = (err e, t)
continued (panic, t) k = (panic, t)
continued (deadlock, t) k = (deadlock, t)
continued (stuck, t) k = (stuck, t)

abbrev pub quits : List ℕ → Bool
quits command = bytes_eq command (codes "quit") || bytes_eq command (codes "exit")

-- One round, by the trimmed input and what the rounds after it do.
unfoldable pub round : List ℕ → TerminalM (Unit {0}) → TerminalM (Unit {0})
unfolding to_lower
round [] rest t = rest t
round (b ∷ bs) rest t =
    if quits (to_lower (b ∷ bs))
    then (ok tt, t)
    else continued (shown t.printed (send_command (b ∷ bs) t.client)) rest

-- The loop over the lines of the standard input, which then ends.
unfoldable pub interact : List (List ℕ) → TerminalM (Unit {0})
interact [] t = (err (wrap (codes "failed to read input") eof), print prompt t)
interact (input ∷ inputs) t = round (trim_space input) (interact inputs) (print prompt t)

-- `StartInteractiveMode`
unfoldable pub start_interactive_mode : List (List ℕ) → TerminalM (Unit {0})
start_interactive_mode inputs t = interact inputs (print banner t)
