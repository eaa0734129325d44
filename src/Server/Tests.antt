-- ===== src/Server/Tests.antt =====
-- The theorems on internal/network/server.go at concrete inputs.
use yuclase.Base.{ℕ, true, false, List, [], ◌∷◌, ◌≡◌, refl, bytes_eq}
use yuclase.Base.Bytes.{codes}
use yuclase.Base.Text.{trim_space, fields, to_upper, drop_space}
use yuclase.Base.Exec.{ok}
use yuclase.Queue.Samples.{orders, host}
use yuclase.Server.Session.{Session}
use yuclase.Server.Lines.{parse_command, handle_lines}
use yuclase.Server.Lines.Replies.{quitted, handle_lines-quitted}

abbrev session : Session
session = record { host = host; output = []; broken = false; active = true }

abbrev padded : List ℕ
padded = codes " enqueue orders big  news "

trim_line : trim_space padded ≡ codes "enqueue orders big  news"
unfolding trim_space bytes_eq
trim_line = refl

-- The two spaces inside the message become one.
parse_line :
    parse_command (codes "enqueue orders big  news")
    ≡ ok (codes "ENQUEUE", orders ∷ codes "big" ∷ codes "news" ∷ [])
unfolding parse_command fields to_upper drop_space bytes_eq
parse_line = refl

trim_quit : trim_space (codes "quit") ≡ codes "quit"
unfolding trim_space bytes_eq
trim_quit = refl

parse_quit : parse_command (codes "quit") ≡ ok (codes "QUIT", [])
unfolding parse_command fields to_upper drop_space bytes_eq
parse_quit = refl

quit_example :
    handle_lines (codes "quit" ∷ padded ∷ []) session ≡ handle_lines (padded ∷ []) (quitted session)
quit_example =
    handle_lines-quitted (codes "quit") 113 (codes "uit") [] (padded ∷ []) session trim_quit
      parse_quit refl
