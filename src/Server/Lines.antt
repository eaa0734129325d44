-- ===== src/Server/Lines.antt =====
-- internal/network/server.go: the lines of a connection and the loop that answers them.
pub mod Replies
pub mod Words
use yuclase.Base.{ℕ, Bool, false, List, [], ◌∷◌, ◌++◌}
use yuclase.Base.Bytes.{codes}
use yuclase.Base.Text.{trim_space, fields, to_upper}
use yuclase.Base.Scanner.{split_lines}
use yuclase.Base.Exec.{Error, text, Result, ok, err, panic, deadlock, stuck, pure, ◌>>◌}
use yuclase.Server.Session.{
  Session, SessionM, written, send_response, send_error, ok_reply, error_reply, crlf,
}
use yuclase.Server.Commands.{execute_command}

-- The name in upper case, and the arguments.
abbrev pub command : List (List ℕ) → Result (List ℕ × List (List ℕ))
command [] = err (text (codes "empty command"))
command (name ∷ args) = ok (to_upper name, args)

-- `parseCommand`
unfoldable pub parse_command : List ℕ → Result (List ℕ × List (List ℕ))
parse_command line = command (fields line)

abbrev pub dropped : Result (Unit {0}) × Session → Result (Unit {0}) × Session
dropped (r, s) = (ok tt, s)

-- An error is sent to the client, and what that meets is dropped; a panic ends the server.
unfoldable pub answered : Result (Unit {0}) × Session → Result (Unit {0}) × Session
answered (ok a, s) = (ok a, s)
answered (err e, s) = dropped (send_error e s)
answered (panic, s) = (panic, s)
answered (deadlock, s) = (deadlock, s)
answered (stuck, s) = (stuck, s)

abbrev pub parsed : Result (List ℕ × List (List ℕ)) → SessionM (Unit {0})
parsed (ok (name, args)) s = answered (execute_command name args s)
parsed (err e) s = answered (err e, s)
parsed panic s = (panic, s)
parsed deadlock s = (deadlock, s)
parsed stuck s = (stuck, s)

abbrev pub trimmed : List ℕ → SessionM (Unit {0})
trimmed [] = pure tt
trimmed (c ∷ cs) = parsed (parse_command (c ∷ cs))

-- One round of the loop of `handleConnection`.
unfoldable pub handle_line : List ℕ → SessionM (Unit {0})
handle_line line = trimmed (trim_space line)

-- The loop over the lines that the scanner gives.
unfoldable pub handle_lines : List (List ℕ) → SessionM (Unit {0})
handle_lines [] = pure tt
handle_lines (l ∷ ls) = handle_line l >> handle_lines ls

-- The loop of `handleConnection` over the bytes that the connection brings before it ends.
unfoldable pub serve : List ℕ → SessionM (Unit {0})
unfolding handle_lines
serve bytes = handle_lines (split_lines [] bytes)

-- `handleConnection` behind the registration of the client.
unfoldable pub handle_connection : List ℕ → SessionM (Unit {0})
unfolding serve
handle_connection bytes s =
    serve bytes (send_response (codes "+OK Yuclase Queue Server Ready" ++ crlf) s).1
