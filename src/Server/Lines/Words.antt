-- ===== src/Server/Lines/Words.antt =====
-- internal/network/server.go: a command line of words with single spaces between them.
use yuclase.Base.{List, ℕ, ◌∷◌, ◌≡◌, ap}
use yuclase.Base.Exec.{ok}
use yuclase.Base.Text.{join, to_upper}
use yuclase.Base.Text.Words.{AreWords, fields-join}
use yuclase.Server.Lines.{command, parse_command}

-- A line of words of printable ASCII with single spaces between them, none of them empty, parses
-- as the first word in upper case with the others as its arguments.
pub parse_command-join :
    (name : List ℕ) (args : List (List ℕ))
    → AreWords (name ∷ args)
    → parse_command (join (name ∷ args)) ≡ ok (to_upper name, args)
unfolding parse_command
parse_command-join name args h = ap command (fields-join (name ∷ args) h)
