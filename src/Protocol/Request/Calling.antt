-- ===== src/Protocol/Request/Calling.antt =====
-- internal/network: a method of client.go against the server of server.go.
use yuclase.Base.{
  ℕ, true, false, List, [], ◌∷◌, ◌++◌, append-nil, append_assoc, length-append, if◌then◌else◌, ◌≡◌,
  refl, sym, ap, ◌∙◌, arith,
}
use yuclase.Base.Bytes.{codes, decimal_ℤ}
use yuclase.Base.Text.Words.{AreWords}
use yuclase.Base.Scanner.{split_lines}
use yuclase.Base.Scanner.Lines.{IsLine, append-NoBreak, split_lines-line, drop_cr-line}
use yuclase.Base.Exec.{text, error_text, Result, ok, err, panic, deadlock, stuck, bind_result, ◌>>◌}
use yuclase.Queue.State.{Host}
use yuclase.Server.Session.{Session, crlf, error_reply}
use yuclase.Server.Lines.{handle_line, handle_lines, serve}
use yuclase.Client.Connection.{Client, ClientM, left, send_request}
use yuclase.Client.Replies.{read_response}
use yuclase.Client.Requests.{
  send_command, enqueue, listen as client_listen, get_offset, set_offset as client_set_offset,
  list_topics, get_stats, list_consumers, create_topic, delete_topic, ping as client_ping,
  help as client_help,
}
use yuclase.Protocol.Reply.{Reply, reply_bytes, reply_text, Fits}
use yuclase.Protocol.Reply.Reading.{read_response-reply, read_response-error_reply}
use yuclase.Protocol.Request.{
  Request, put, listen, offset_of, set_offset, topics, stats, stats_of, consumers_of, create,
  delete, ping, echo, help, name_of, arguments, IsRequest, line_of, perform,
}
use yuclase.Protocol.Request.Serving.{replied, handle_line-perform}
use yuclase.Base.Text.{join}

-- The client's method for a request.
abbrev pub call : Request → ClientM (List ℕ)
call (put topic word words) = enqueue topic (join (word ∷ words))
call (listen topic id) = client_listen topic id
call (offset_of topic id) = get_offset topic id
call (set_offset topic id offset) = client_set_offset topic id offset
call topics = list_topics
call stats = get_stats []
call (stats_of topic) = get_stats topic
call (consumers_of topic) = list_consumers topic
call (create topic) = create_topic topic
call (delete topic) = delete_topic topic
call ping = client_ping []
call (echo word) = client_ping word
call help = client_help

-- Each method sends the words of its request with single spaces between them.
call_lem : (r : Request) → AreWords (name_of r ∷ arguments r) → call r ≡ send_command (line_of r)
unfolding join enqueue client_listen get_offset client_set_offset list_topics get_stats
    list_consumers create_topic delete_topic client_ping client_help
call_lem (put topic word words) h = refl
call_lem (listen topic id) h = refl
call_lem (offset_of topic id) h = refl
call_lem (set_offset topic id offset) h =
    ap (λ t. send_command (codes "OFFSET " ++ t))
      (append_assoc topic (32 ∷ id) (32 ∷ decimal_ℤ offset))
call_lem topics h = refl
call_lem stats h = refl
call_lem (stats_of []) (AreWords.word h hs) = elim hs [ ]
call_lem (stats_of (b ∷ bs)) h = refl
call_lem (consumers_of topic) h = refl
call_lem (create topic) h = refl
call_lem (delete topic) h = refl
call_lem ping h = refl
call_lem (echo []) (AreWords.word h hs) = elim hs [ ]
call_lem (echo (b ∷ bs)) h = refl
call_lem help h = refl

-- The client is connected, and its scanner and its writer have not failed.
pub record IsReady (c : Client) : Type 0 where
  pub connected : c.connected ≡ true
  pub scans : c.stopped ≡ false
  pub writes : c.writer_failed ≡ false
  pub unbroken : c.stream.broken ≡ false

-- What the caller gets for what the queue returned.
abbrev pub answer : Result Reply → Result (List ℕ)
answer (ok r) = ok (reply_text r)
answer (err e) = err (text (codes "server error: ERR " ++ error_text e))
answer panic = panic
answer deadlock = deadlock
answer stuck = stuck

-- The queue returned, and its reply fits the lines of the client's scanner.
abbrev pub Answers : Result Reply → Type 0
Answers (ok r) = Fits r
Answers (err e) = IsLine (codes "-ERR " ++ error_text e)
Answers panic = ⊥
Answers deadlock = ⊥
Answers stuck = ⊥

abbrev requested : List ℕ → Client → Client
requested line c = record c { sent = c.sent ++ line ++ crlf }

module _ (c : Client) (ready : IsReady c) (line : List ℕ) where
  send_request_lem : send_request line c ≡ (ok tt, requested line c)
  unfolding send_request
  send_request_lem = rw ready.writes rw ready.unbroken refl

  send_command_lem : send_command line c ≡ read_response (requested line c)
  unfolding send_command
  send_command_lem =
      ap
        (λ b.
          if b
          then (send_request line >> read_response) c
          else (err (text (codes "not connected to server")), c))
        ready.connected
      ∙ ap (λ (p : Result (Unit {0}) × Client). bind_result p.0 (λ _. read_response) p.1)
          send_request_lem

-- The server reads the line that was sent.
serve-line :
    (line : List ℕ) (s : Session)
    → IsLine line
    → serve (line ++ crlf) s ≡ (handle_line line >> λ t. (ok tt, t)) s
unfolding serve handle_lines split_lines
serve-line line s h =
    ap (λ ls. handle_lines ls s)
      (ap (split_lines []) (sym (append_assoc line (13 ∷ []) (10 ∷ [])))
        ∙ split_lines-line [] (line ++ 13 ∷ []) [] (append-NoBreak line (13 ∷ []) h.0 (refl, tt))
            (omega (arith, h.1, length-append line (13 ∷ [])))
        ∙ ap (λ l. l ∷ split_lines [] []) (drop_cr-line line))

abbrev finished : Result (Unit {0}) × Session → Result (Unit {0}) × Session
finished (r, t) = bind_result r (λ _ u. (ok tt, u)) t

finished_session : (q : Result (Unit {0}) × Session) → (finished q).1 ≡ q.1
finished_session (ok u, t) = refl
finished_session (err e, t) = refl
finished_session (panic, t) = refl
finished_session (deadlock, t) = refl
finished_session (stuck, t) = refl

replied_host : (s : Session) (p : Result Reply × Host) → (replied s p).1.host ≡ p.1
replied_host s (ok r, h) = refl
replied_host s (err e, h) = refl
replied_host s (panic, h) = refl
replied_host s (deadlock, h) = refl
replied_host s (stuck, h) = refl

-- The client reads what the server wrote for a result of the queue.
replied-read_response :
    (c : Client) (s : Session) (p : Result Reply × Host)
    → c.stopped ≡ false
    → s.output ≡ []
    → c.stream.incoming ≡ (replied s p).1.output
    → Answers p.0
    → read_response c ≡ (answer p.0, left [] c)
replied-read_response c s (ok r, h) scans fresh bytes fits =
    read_response-reply r c []
      (record {
        going = scans;
        bytes = bytes ∙ ap (λ o. o ++ reply_bytes r) fresh ∙ sym (append-nil (reply_bytes r));
      })
      fits
replied-read_response c s (err e, h) scans fresh bytes fits =
    read_response-error_reply e c []
      (record {
        going = scans;
        bytes = bytes ∙ ap (λ o. o ++ error_reply e) fresh ∙ sym (append-nil (error_reply e));
      })
      fits
replied-read_response c s (panic, h) scans fresh bytes fits = absurd fits
replied-read_response c s (deadlock, h) scans fresh bytes fits = absurd fits
replied-read_response c s (stuck, h) scans fresh bytes fits = absurd fits

-- A call of the client against the session of the server.
pub record Exchanges (r : Request) (c : Client) (s : Session) : Type 0 where
  pub sent : (call r c).1.sent ≡ c.sent ++ line_of r ++ crlf
  pub returned : (call r c).0 ≡ answer (perform r s.host).0
  pub taken : (call r c).1.stream.incoming ≡ []
  pub stored : (serve (line_of r ++ crlf) s).1.host ≡ (perform r s.host).1

-- A client that can make the request, and a session whose answer to its line is what comes back.
pub record Faces (r : Request) (c : Client) (s : Session) : Type 0 where
  pub words : IsRequest r
  pub fits : IsLine (line_of r)
  pub ready : IsReady c
  pub works : s.broken ≡ false
  pub fresh : s.output ≡ []
  pub bytes : c.stream.incoming ≡ (serve (line_of r ++ crlf) s).1.output

-- A method of the client sends the line of its request; where what comes back is what the server
-- writes when it serves that line, the method returns the value or the error of the queue's
-- method, nothing of the reply is left over, and the queue is as its method leaves it. The words
-- of the request are printable ASCII, the line and the texts of the reply fit the scanners, the
-- connection works, and the queue's method returns.
pub call-Exchanges :
    (r : Request) (c : Client) (s : Session)
    → Faces r c s
    → Answers (perform r s.host).0
    → Exchanges r c s
call-Exchanges r c s f answers =
    let line = line_of r in
    let p = perform r s.host in
    let served : (serve (line ++ crlf) s).1 ≡ (replied s p).1 =
      ap (λ q. q.1) (serve-line line s f.fits)
      ∙ finished_session (handle_line line s)
      ∙ ap (λ q. q.1) (handle_line-perform r s f.words f.works) in
    let read : call r c ≡ (answer p.0, left [] (requested line c)) =
      ap (λ m. m c) (call_lem r f.words.words)
      ∙ send_command_lem c f.ready line
      ∙ replied-read_response (requested line c) s p f.ready.scans f.fresh
          (f.bytes ∙ ap (λ t. t.output) served) answers in
    record {
      sent = ap (λ q. q.1.sent) read;
      returned = ap (λ q. q.0) read;
      taken = ap (λ q. q.1.stream.incoming) read;
      stored = ap (λ t. t.host) served ∙ replied_host s p;
    }
