-- ===== src/Protocol/Reply.antt =====
-- internal/network: the replies, as `server.go` prints them and as `client.go` shows them.
pub mod Reading
pub mod Breaks
use yuclase.Base.{ℕ, zero, suc, ◌+◌, ◌^◌, ◌<◌, List, [], ◌∷◌, ◌++◌, length}
use yuclase.Base.Int64.{ℤ}
use yuclase.Base.Bytes.{codes, decimal_ℤ}
use yuclase.Base.Scanner.Lines.{IsLine}
use yuclase.Server.Session.{crlf, bulk_reply, integer_reply, array_header}
use yuclase.Client.Replies.{numbered}

pub data Item : Type 0 where
  bulk : List ℕ → Item
  number : ℤ → Item

pub data Reply : Type 0 where
  status : List ℕ → Reply
  one : Item → Reply
  many : List Item → Reply

-- What the server writes.
abbrev pub item_bytes : Item → List ℕ
item_bytes (bulk s) = bulk_reply s
item_bytes (number n) = integer_reply n

abbrev pub items_bytes : List Item → List ℕ
items_bytes [] = []
items_bytes (i ∷ is) = item_bytes i ++ items_bytes is

abbrev pub reply_bytes : Reply → List ℕ
reply_bytes (status s) = 43 ∷ s ++ crlf
reply_bytes (one i) = item_bytes i
reply_bytes (many is) = array_header (length is) ++ items_bytes is

-- What the client gives its caller.
abbrev pub item_text : Item → List ℕ
item_text (bulk s) = s
item_text (number n) = decimal_ℤ n

abbrev pub listing : ℕ → List Item → List ℕ
listing k [] = []
listing k (i ∷ is) = numbered k (item_text i) ++ listing (suc k) is

abbrev pub reply_text : Reply → List ℕ
reply_text (status s) = s
reply_text (one i) = item_text i
reply_text (many []) = codes "(empty array)"
reply_text (many (i ∷ is)) = listing 0 (i ∷ is)

-- Every text fits a line of the client's scanner.
abbrev pub ItemFits : Item → Type 0
ItemFits (bulk s) = IsLine s
ItemFits (number n) = Unit {0}

abbrev pub ItemsFit : List Item → Type 0
ItemsFit [] = Unit {0}
ItemsFit (i ∷ is) = ItemFits i × ItemsFit is

abbrev pub Fits : Reply → Type 0
Fits (status s) = IsLine (43 ∷ s)
Fits (one i) = ItemFits i
Fits (many is) = (length is < 2 ^ 63) × ItemsFit is
