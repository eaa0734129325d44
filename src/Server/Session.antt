-- ===== src/Server/Session.antt =====
-- internal/network/server.go: what the server keeps of a connection, and the replies it writes.
use yuclase.Base.{ℕ, Bool, List, [], ◌∷◌, ◌++◌, length, if◌then◌else◌}
use yuclase.Base.Int64.{ℤ}
use yuclase.Base.Bytes.{codes, decimal, decimal_ℤ}
use yuclase.Base.Exec.{Error, os_error, write_call, error_text, ok, err, Exec}
use yuclase.Queue.State.{Host, QueueM}

-- `output` is what has been written to the connection; a connection that is `broken` takes no more,
-- as the buffered writer keeps its first error.
pub record Session : Type 0 where
  pub host : Host
  pub output : List ℕ
  pub broken : Bool
  pub active : Bool

abbrev pub SessionM : Type 0 → Type 0
SessionM A = Exec Session A

-- A method of the queue.
abbrev pub on_queue : {A : Type 0} → QueueM A → SessionM A
on_queue m s = let (r, h) = m s.host in (r, record s { host = h })

abbrev pub written : List ℕ → Session → Session
written response s = record s { output = s.output ++ response }

-- `sendResponse`
unfoldable pub send_response : List ℕ → SessionM (Unit {0})
send_response response s =
    if s.broken then (err (os_error write_call), s) else (ok tt, written response s)

abbrev pub crlf : List ℕ
crlf = 13 ∷ 10 ∷ []

-- fmt.Sprintf("-%s\r\n", fmt.Sprintf("ERR %s", err.Error()))
abbrev pub error_reply : Error → List ℕ
error_reply e = codes "-ERR " ++ error_text e ++ crlf

-- `sendError`
unfoldable pub send_error : Error → SessionM (Unit {0})
unfolding send_response
send_error e = send_response (error_reply e)

abbrev pub ok_reply : List ℕ
ok_reply = codes "+OK" ++ crlf

-- fmt.Sprintf(":%d\r\n", n)
abbrev pub integer_reply : ℤ → List ℕ
integer_reply n = codes ":" ++ decimal_ℤ n ++ crlf

-- fmt.Sprintf("$%d\r\n%s\r\n", len(s), s)
abbrev pub bulk_reply : List ℕ → List ℕ
bulk_reply s = codes "$" ++ decimal (length s) ++ crlf ++ s ++ crlf

abbrev pub array_header : ℕ → List ℕ
array_header n = codes "*" ++ decimal n ++ crlf

unfoldable pub bulk_replies : List (List ℕ) → List ℕ
bulk_replies [] = []
bulk_replies (s ∷ ss) = bulk_reply s ++ bulk_replies ss

abbrev pub array_reply : List (List ℕ) → List ℕ
array_reply ss = array_header (length ss) ++ bulk_replies ss
