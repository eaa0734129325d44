-- ===== src/Protocol/Tests.antt =====
-- The theorems on internal/network at concrete inputs.
use yuclase.Base.{
  ℕ, ◌^◌, ◌<◌, true, false, none, List, [], ◌∷◌, ◌++◌, ◌≡◌, refl, take, length, bytes_eq, arith,
}
use yuclase.Base.Int64.{negsuc}
use yuclase.Base.Bytes.{codes, decimal}
use yuclase.Base.Text.{join}
use yuclase.Base.Text.Words.{IsWord, AreWords}
use yuclase.Base.Scanner.Lines.{IsLine}
use yuclase.Base.Assoc.{lookup}
use yuclase.Base.Exec.{ok, error_text}
use yuclase.Storage.Log.Messages.{header_bytes}
use yuclase.Storage.Log.Messages.Sequence.{log_bytes}
use yuclase.Storage.Catalog.Consumers.{get_offset}
use yuclase.Topic.Samples.{topic, topic-Holds}
use yuclase.Topic.Messages.Delivery.{HasRead, new_message}
use yuclase.Queue.Samples.{orders, host}
use yuclase.Queue.Topics.{topic_exists}
use yuclase.Server.Session.{Session, crlf, ok_reply}
use yuclase.Server.Lines.{serve}
use yuclase.Client.Connection.{Client, silent}
use yuclase.Protocol.Reply.{Reply, bulk, number, many, reply_bytes, reply_text, Fits}
use yuclase.Protocol.Reply.Breaks.{broken}
use yuclase.Protocol.Request.{Request, put, listen, line_of, perform}
use yuclase.Protocol.Request.Calling.{IsReady, Faces, Answers, Exchanges, call, call-Exchanges}
use yuclase.Protocol.Delivery.{QueueHolds, payloads}
use yuclase.Protocol.Delivery.Conversation.{unread, listen-put}

abbrev session : Session
session = record { host = host; output = []; broken = false; active = true }

-- A connection that brings these bytes.
abbrev client : List ℕ → Client
client bytes = record {
  address = codes "localhost:8080";
  connected = true;
  stream = record { incoming = bytes; ending = silent; broken = false };
  deadline = false;
  stopped = false;
  scan_error = none;
  writer_failed = false;
  sent = [];
}

abbrev put_hi : Request
put_hi = put orders (codes "hi") []

put_hi-IsLine : IsLine (codes "ENQUEUE orders hi")
put_hi-IsLine = ground arith

put_words : AreWords (codes "ENQUEUE" ∷ orders ∷ codes "hi" ∷ [])
put_words = search (IsWord.end, IsWord.byte, AreWords.none, AreWords.word, arith)

listen_words : AreWords (codes "LISTEN" ∷ orders ∷ codes "c" ∷ [])
listen_words = search (IsWord.end, IsWord.byte, AreWords.none, AreWords.word, arith)

abbrev listen_c : Request
listen_c = listen orders (codes "c")

listen_c-IsLine : IsLine (line_of listen_c)
unfolding join
listen_c-IsLine = ground arith

-- The server's answer to a line is what the client's connection brings.
abbrev answered : Request → Session → Client
answered r s = client (serve (line_of r ++ crlf) s).1.output

client-IsReady : (bytes : List ℕ) → IsReady (client bytes)
client-IsReady bytes = record { connected = refl; scans = refl; writes = refl; unbroken = refl }

put_Faces : Faces put_hi (answered put_hi session) session
unfolding join
put_Faces = record {
  words = record { words = put_words; offsets = tt };
  fits = put_hi-IsLine;
  ready = client-IsReady (serve (line_of put_hi ++ crlf) session).1.output;
  works = refl;
  fresh = refl;
  bytes = refl;
}

-- The consumer's session begins with the queue as the put left it.
abbrev later : Session
later = record session { host = (serve (line_of put_hi ++ crlf) session).1.host }

listen_Faces : Faces listen_c (answered listen_c later) later
listen_Faces = record {
  words = record { words = listen_words; offsets = tt };
  fits = listen_c-IsLine;
  ready = client-IsReady (serve (line_of listen_c ++ crlf) later).1.output;
  works = refl;
  fresh = refl;
  bytes = refl;
}

host_QueueHolds : QueueHolds orders topic [] host
unfolding lookup bytes_eq
host_QueueHolds = record {
  is_free = refl;
  is_open = refl;
  found = refl;
  segment = 0;
  holds = topic-Holds;
}

nobody_read : HasRead (codes "c") [] topic
unfolding get_offset log_bytes lookup
nobody_read = refl

small : length (log_bytes (new_message (codes "hi") topic ∷ [])) < 2 ^ 32
unfolding log_bytes header_bytes
small = omega arith

message-Fits : Fits (payloads (take 10 (new_message (codes "hi") topic ∷ [])))
message-Fits = ground arith

listen_put_example :
    ((call put_hi (answered put_hi session)).0 ≡ ok (decimal (length (log_bytes []))))
    × ((call listen_c (answered listen_c later)).0
        ≡ ok (
            reply_text
              (payloads (take 10 (unread orders (codes "hi") [] (codes "c") topic [] [])))))
unfolding join log_bytes
listen_put_example =
    listen-put orders (codes "hi") [] (codes "c") topic [] [] (answered put_hi session)
      (answered listen_c later) session later host_QueueHolds nobody_read small (omega arith)
      put_Faces listen_Faces refl message-Fits

-- A topic that is not there.
abbrev listen_none : Request
listen_none = listen (codes "none") (codes "c")

none_words : AreWords (codes "LISTEN" ∷ codes "none" ∷ codes "c" ∷ [])
none_words = search (IsWord.end, IsWord.byte, AreWords.none, AreWords.word, arith)

none_Faces : Faces listen_none (answered listen_none session) session
unfolding join
none_Faces = record {
  words = record { words = none_words; offsets = tt };
  fits = ground arith;
  ready = client-IsReady (serve (line_of listen_none ++ crlf) session).1.output;
  works = refl;
  fresh = refl;
  bytes = refl;
}

none_Answers : Answers (perform listen_none host).0
unfolding topic_exists lookup bytes_eq error_text
none_Answers = ground arith

call_example : Exchanges listen_none (answered listen_none session) session
call_example =
    call-Exchanges listen_none (answered listen_none session) session none_Faces none_Answers

-- A reply of two elements, and a byte of the next one.
abbrev two_items : Reply
two_items = many (bulk (codes "size") ∷ number (negsuc 4) ∷ [])

-- The reply to LISTEN with one message, "hi" and a line feed.
abbrev broken_reply : Client
broken_reply = client (reply_bytes (many (bulk (broken (codes "hi")) ∷ [])) ++ ok_reply)
