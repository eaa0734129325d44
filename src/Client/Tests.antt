-- ===== src/Client/Tests.antt =====
-- The theorems on cmd/cli/main.go at concrete inputs.
use yuclase.Base.{List, [], ◌∷◌, ◌++◌, ℕ, false}
use yuclase.Base.Bytes.{codes}
use yuclase.Client.Connection.{Stream, closed, crlf}

-- The connection ends within an array.
abbrev cut_off : Stream
cut_off = record {
  incoming = codes "+OK" ++ crlf ++ codes "*3" ++ crlf ++ codes ":1" ++ crlf;
  ending = closed;
  broken = false;
}

abbrev typed : List (List ℕ)
typed = codes "TOPICS" ∷ codes "quit" ∷ []
