-- ===== src/Server/Lines/Replies.antt =====
-- internal/network/server.go: what a client reads for the line that it sent.
use yuclase.Base.{ℕ, Bool, false, List, ◌∷◌, ◌++◌, bytes_eq, ◌≡◌, refl, if◌then◌else◌, ap, ◌∙◌}
use yuclase.Base.Int64.{ℤ}
use yuclase.Base.Bytes.{codes}
use yuclase.Base.Text.{trim_space, join}
use yuclase.Base.Exec.{
  Error, text, wrap, os_error, write_call, wrap_result, bind_result, Result, ok, err, panic,
  deadlock, stuck,
}
use yuclase.Queue.State.{Host}
use yuclase.Queue.Topics.{enqueue}
use yuclase.Server.Session.{
  Session, written, send_response, send_error, ok_reply, error_reply, integer_reply,
}
use yuclase.Server.Commands.{execute_command, handle_enqueue, handle_quit}
use yuclase.Server.Lines.{
  parse_command, dropped, answered, parsed, trimmed, handle_line, handle_lines,
}

-- The queue as an enqueue leaves it, and its offset or its error in the one reply.
abbrev pub replied : Session → Result ℤ × Host → Result (Unit {0}) × Session
replied s (ok offset, h) = (ok tt, written (integer_reply offset) (record s { host = h }))
replied s (err e, h) =
    (ok tt, written (error_reply (wrap (codes "failed to enqueue") e)) (record s { host = h }))
replied s (panic, h) = (panic, record s { host = h })
replied s (deadlock, h) = (deadlock, record s { host = h })
replied s (stuck, h) = (stuck, record s { host = h })

-- Both replies of QUIT, on a session that goes on.
abbrev pub quitted : Session → Session
quitted s = record s {
  output = (s.output ++ ok_reply) ++ error_reply (text (codes "client disconnected"));
  active = false;
}

abbrev sent : Bool → List ℕ → Session → Result (Unit {0}) × Session
sent b response s = if b then (err (os_error write_call), s) else (ok tt, written response s)

pub send_response_lem :
    (s : Session) (response : List ℕ)
    → s.broken ≡ false
    → send_response response s ≡ (ok tt, written response s)
unfolding send_response
send_response_lem s response h = ap (λ b. sent b response s) h

pub refused_lem :
    (s : Session) (e : Error)
    → s.broken ≡ false
    → answered (err e, s) ≡ (ok tt, written (error_reply e) s)
unfolding answered send_error
refused_lem s e h = ap dropped (send_response_lem s (error_reply e) h)

abbrev enqueued : Session → Result ℤ × Host → Result (Unit {0}) × Session
enqueued s (r, h) = answered (
    bind_result (wrap_result (codes "failed to enqueue") r)
      (λ offset. send_response (integer_reply offset)) (record s { host = h }))

enqueued_lem : (s : Session) → s.broken ≡ false → (r : Result ℤ × Host) → enqueued s r ≡ replied s r
unfolding answered
enqueued_lem s f (ok n, h) =
    ap answered (send_response_lem (record s { host = h }) (integer_reply n) f)
enqueued_lem s f (err e, h) =
    refused_lem (record s { host = h }) (wrap (codes "failed to enqueue") e) f
enqueued_lem s f (panic, h) = refl
enqueued_lem s f (deadlock, h) = refl
enqueued_lem s f (stuck, h) = refl

module _ (line : List ℕ) (c : ℕ) (cs name : List ℕ) (args : List (List ℕ)) (s : Session)
    (trims : trim_space line ≡ c ∷ cs) (parses : parse_command (c ∷ cs) ≡ ok (name, args)) where
  pub handle_line_lem : handle_line line s ≡ answered (execute_command name args s)
  unfolding handle_line
  handle_line_lem = ap (λ t. trimmed t s) trims ∙ ap (λ p. parsed p s) parses

-- On a connection that takes its replies, a line that parses as ENQUEUE with a topic and at least
-- one word is the queue's Enqueue of the words with single spaces between them. The client reads
-- one reply, the offset or the error, and the loop goes on to the next line; a panic or a deadlock
-- of the queue is one of the connection.
pub enqueue_line_lem :
    (line : List ℕ) (c : ℕ) (cs topic_name word : List ℕ) (words : List (List ℕ)) (s : Session)
    → trim_space line ≡ c ∷ cs
    → parse_command (c ∷ cs) ≡ ok (codes "ENQUEUE", topic_name ∷ word ∷ words)
    → s.broken ≡ false
    → handle_line line s ≡ replied s (enqueue topic_name (join (word ∷ words)) s.host)
unfolding execute_command bytes_eq handle_enqueue
enqueue_line_lem line c cs topic_name word words s trims parses works =
    handle_line_lem line c cs (codes "ENQUEUE") (topic_name ∷ word ∷ words) s trims parses
    ∙ enqueued_lem s works (enqueue topic_name (join (word ∷ words)) s.host)

-- The loop behind a line.
abbrev behind : List (List ℕ) → Result (Unit {0}) × Session → Result (Unit {0}) × Session
behind rest (r, t) = bind_result r (λ u. handle_lines rest) t

abbrev quitting : Session → Result (Unit {0}) × Session → Result (Unit {0}) × Session
quitting s (r, t) = answered (err (text (codes "client disconnected")), record t { active = false })

quit_line_lem :
    (args : List (List ℕ)) (s : Session)
    → s.broken ≡ false
    → answered (execute_command (codes "QUIT") args s) ≡ (ok tt, quitted s)
unfolding execute_command bytes_eq handle_quit
quit_line_lem args s works =
    ap (quitting s) (send_response_lem s ok_reply works)
    ∙ refused_lem (record s { output = s.output ++ ok_reply; active = false })
        (text (codes "client disconnected")) works

-- On a connection that takes its replies, a line that parses as QUIT is answered by `+OK` and then
-- by the error "client disconnected", and the lines behind it are served as on a session that goes
-- on: QUIT does not end the connection.
pub handle_lines-quitted :
    (line : List ℕ) (c : ℕ) (cs : List ℕ) (args : List (List ℕ)) (rest : List (List ℕ))
    (s : Session)
    → trim_space line ≡ c ∷ cs
    → parse_command (c ∷ cs) ≡ ok (codes "QUIT", args)
    → s.broken ≡ false
    → handle_lines (line ∷ rest) s ≡ handle_lines rest (quitted s)
unfolding handle_lines
handle_lines-quitted line c cs args rest s trims parses works =
    ap (behind rest)
      (handle_line_lem line c cs (codes "QUIT") args s trims parses ∙ quit_line_lem args s works)
