-- ===== src/Client/Connection.antt =====
-- internal/network/client.go: the client, its connection and the scanner over it.
use yuclase.Base.{
  ℕ, Bool, true, false, Option, none, some, List, [], ◌∷◌, ◌++◌, length, ltb, if◌then◌else◌,
}
use yuclase.Base.Bytes.{codes}
use yuclase.Base.Scanner.{cut, drop_cr, token_limit}
use yuclase.Base.Text.{starts_with}
use yuclase.Base.Exec.{
  Error, text, wrap, os_error, write_call, Result, ok, err, panic, deadlock, stuck, Exec,
}

-- What follows on a connection when its bytes have come: nothing, its end, or an error.
pub data Ending : Type 0 where
  silent closed : Ending
  failed : Error → Ending

-- What a connection brings, and whether it refuses what is written.
pub record Stream : Type 0 where
  pub incoming : List ℕ
  pub ending : Ending
  pub broken : Bool

-- `connected` says that `conn` is not nil. A scanner that has `stopped` gives no more lines, and a
-- writer that has failed keeps its error. `sent` is what the server gets to read.
pub record Client : Type 0 where
  pub address : List ℕ
  pub connected : Bool
  pub stream : Stream
  pub deadline : Bool
  pub stopped : Bool
  pub scan_error : Option Error
  pub writer_failed : Bool
  pub sent : List ℕ

abbrev pub ClientM : Type 0 → Type 0
ClientM A = Exec Client A

abbrev no_stream : Stream
no_stream = record { incoming = []; ending = closed; broken = true }

-- `NewClient`
unfoldable pub new_client : List ℕ → Client
new_client address = record {
  address = address;
  connected = false;
  stream = no_stream;
  deadline = false;
  stopped = false;
  scan_error = none;
  writer_failed = false;
  sent = [];
}

abbrev pub left : List ℕ → Client → Client
left rest c = record c { stream = record c.stream { incoming = rest } }

abbrev pub stop_scan : Option Error → Client → Client
stop_scan e c = record c { stopped = true; scan_error = e }

-- The bytes behind the last line feed are a line of their own, unless there are none.
abbrev pub last_line : Option Error → List ℕ → ClientM (Option (List ℕ))
last_line e [] c = (ok none, stop_scan e c)
last_line e (b ∷ bs) c = (ok (some (drop_cr (b ∷ bs))), left [] c)

-- A read on a silent connection waits for ever, or for the deadline.
abbrev pub at_end : Ending → ClientM (Option (List ℕ))
at_end silent c =
    if c.deadline
    then last_line (some (text (codes "i/o timeout"))) c.stream.incoming c
    else (deadlock, c)
at_end closed c = last_line none c.stream.incoming c
at_end (failed e) c = last_line (some e) c.stream.incoming c

abbrev pub too_long : ClientM (Option (List ℕ))
too_long c = (ok none, stop_scan (some (text (codes "bufio.Scanner: token too long"))) c)

abbrev pub scan_line : Option (List ℕ × List ℕ) → ClientM (Option (List ℕ))
scan_line (some (line, rest)) c =
    if ltb (length line) token_limit then (ok (some (drop_cr line)), left rest c) else too_long c
scan_line none c =
    if ltb (length c.stream.incoming) token_limit then at_end c.stream.ending c else too_long c

-- `Scan`, with `Text` of the line that it found.
unfoldable pub scan : ClientM (Option (List ℕ))
scan c = if c.stopped then (ok none, c) else scan_line (cut c.stream.incoming) c

abbrev pub set_deadline : Bool → Client → Client
set_deadline b c = record c { deadline = b }

-- The welcome message, or why there is none.
abbrev pub welcomed : Option Error → Option (List ℕ) → Result (Unit {0})
welcomed e (some line) =
    if starts_with (codes "+OK") line
    then ok tt
    else err (text (codes "unexpected welcome message: " ++ line))
welcomed (some e) none = err (wrap (codes "failed to read welcome message") e)
welcomed none none = err (text (codes "failed to read welcome message"))

abbrev pub welcome : Result (Option (List ℕ)) × Client → Result (Unit {0}) × Client
welcome (ok line, c) = (welcomed c.scan_error line, set_deadline false c)
welcome (err e, c) = (err e, c)
welcome (panic, c) = (panic, c)
welcome (deadlock, c) = (deadlock, c)
welcome (stuck, c) = (stuck, c)

abbrev pub dialled : Stream → Client → Client
dialled s c = record c {
  connected = true;
  stream = s;
  deadline = true;
  stopped = false;
  scan_error = none;
  writer_failed = false;
}

-- `Connect`, by what `net.DialTimeout` gave.
unfoldable pub connect : Result Stream → ClientM (Unit {0})
unfolding scan
connect (ok s) c = welcome (scan (dialled s c))
connect (err e) c = (err (wrap (codes "failed to connect to " ++ c.address) e), c)
connect panic c = (panic, c)
connect deadlock c = (deadlock, c)
connect stuck c = (stuck, c)

abbrev pub crlf : List ℕ
crlf = 13 ∷ 10 ∷ []

abbrev pub unsent : List ℕ → ClientM (Unit {0})
unsent line c = (
  err (
      wrap
        (if ltb 4096 (length line)
          then codes "failed to send command"
          else codes "failed to flush command")
        (os_error write_call)),
  record c { writer_failed = true },
)

-- The request goes out when the buffer of 4096 bytes is full or flushed.
unfoldable pub send_request : List ℕ → ClientM (Unit {0})
send_request command c =
    if c.writer_failed
    then (err (wrap (codes "failed to send command") (os_error write_call)), c)
    else if c.stream.broken
    then unsent (command ++ crlf) c
    else (ok tt, record c { sent = c.sent ++ command ++ crlf })
