-- ===== src/Client/Requests/Ending.antt =====
-- internal/network/client.go: requests on a connection that ends.
use yuclase.Base.{ℕ, Bool, true, false, Option, none, some, List, ◌++◌, if◌then◌else◌, ◌≡◌, refl}
use yuclase.Base.Bytes.{codes}
use yuclase.Base.Text.{starts_with}
use yuclase.Base.Exec.{
  Error, os_error, write_call, wrap, text, Result, ok, err, panic, deadlock, stuck, bind_result,
}
use yuclase.Client.Connection.{
  Client, Stream, closed, connect, new_client, scan, dialled, welcome, welcomed, send_request,
  unsent, crlf,
}
use yuclase.Client.Replies.{read_response}
use yuclase.Client.Replies.Ending.{
  CameBack, Returns, bind-Returns, if-Returns, scan-Returns, read_response-Returns,
}
use yuclase.Client.Requests.{send_command, disconnect, after_quit}

send_request-Returns :
    (command : List ℕ) (c : Client) → c.stream.ending ≡ closed → Returns (send_request command c)
unfolding send_request
send_request-Returns command c h =
    if-Returns c.writer_failed
      (err (wrap (codes "failed to send command") (os_error write_call)), c)
      (if c.stream.broken
        then unsent (command ++ crlf) c
        else (ok tt, record c { sent = c.sent ++ command ++ crlf }))
      (record { back = tt; ends = h })
      (if-Returns c.stream.broken (unsent (command ++ crlf) c)
        (ok tt, record c { sent = c.sent ++ command ++ crlf }) (record { back = tt; ends = h })
        (record { back = tt; ends = h }))

pub send_command-Returns :
    (command : List ℕ) (c : Client) → c.stream.ending ≡ closed → Returns (send_command command c)
unfolding send_command
send_command-Returns command c h =
    let (r, d) = send_request command c in
    let sent = send_request-Returns command c h in
    if-Returns c.connected (bind_result r (λ _. read_response) d)
      (err (text (codes "not connected to server")), c)
      (bind-Returns r (λ _. read_response) d sent (λ _. read_response-Returns d sent.ends))
      (record { back = tt; ends = h })

after_quit-Returns :
    (closing : Result (Unit {0})) (r : Result (List ℕ)) (c : Client)
    → CameBack closing
    → Returns (r, c)
    → Returns (after_quit closing (r, c))
after_quit-Returns closing (ok s) c k h = record { back = k; ends = h.ends }
after_quit-Returns closing (err e) c k h = record { back = k; ends = h.ends }
after_quit-Returns closing panic c k h = record { back = tt; ends = h.ends }
after_quit-Returns closing deadlock c k h = absurd h.back
after_quit-Returns closing stuck c k h = absurd h.back

pub disconnect-Returns :
    (closing : Result (Unit {0})) (c : Client)
    → CameBack closing
    → c.stream.ending ≡ closed
    → Returns (disconnect closing c)
unfolding disconnect
disconnect-Returns closing c k h =
    let (r, d) = send_command (codes "QUIT") c in
    if-Returns c.connected (after_quit closing (r, d)) (ok tt, c)
      (after_quit-Returns closing r d k (send_command-Returns (codes "QUIT") c h))
      (record { back = tt; ends = h })

-- The welcome.
greeting-CameBack : (b : Bool) (e : Error) → CameBack (if b then ok tt else err e)
greeting-CameBack true e = tt
greeting-CameBack false e = tt

welcomed-CameBack : (e : Option Error) (o : Option (List ℕ)) → CameBack (welcomed e o)
welcomed-CameBack e (some line) =
    greeting-CameBack (starts_with (codes "+OK") line)
      (text (codes "unexpected welcome message: " ++ line))
welcomed-CameBack (some e) none = tt
welcomed-CameBack none none = tt

welcome-Returns :
    (r : Result (Option (List ℕ))) (c : Client) → Returns (r, c) → Returns (welcome (r, c))
welcome-Returns (ok line) c h = record { back = welcomed-CameBack c.scan_error line; ends = h.ends }
welcome-Returns (err e) c h = record { back = tt; ends = h.ends }
welcome-Returns panic c h = record { back = tt; ends = h.ends }
welcome-Returns deadlock c h = absurd h.back
welcome-Returns stuck c h = absurd h.back

-- Dialling fails, or gives a connection that ends.
abbrev pub Arrives : Result Stream → Type 0
Arrives (ok s) = s.ending ≡ closed
Arrives (err e) = Unit
Arrives panic = ⊥
Arrives deadlock = ⊥
Arrives stuck = ⊥

pub connect-Returns :
    (address : List ℕ) (dialling : Result Stream)
    → Arrives dialling
    → Returns (connect dialling (new_client address))
unfolding connect new_client
connect-Returns address (ok s) h =
    let (r, c) = scan (dialled s (new_client address)) in
    welcome-Returns r c (scan-Returns (dialled s (new_client address)) h)
connect-Returns address (err e) h = record { back = tt; ends = refl }
connect-Returns address panic h = absurd h
connect-Returns address deadlock h = absurd h
connect-Returns address stuck h = absurd h
