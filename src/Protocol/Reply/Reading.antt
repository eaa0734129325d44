-- ===== src/Protocol/Reply/Reading.antt =====
-- internal/network: `readResponse` of client.go over what server.go prints.
use yuclase.Base.{
  ℕ, suc, ◌^◌, ◌<◌, Bool, false, Option, none, some, List, [], ◌∷◌, ◌++◌, length, length-append,
  append_assoc, append-nil, if◌then◌else◌, ◌≡◌, refl, sym, ap, ◌∙◌, arith, lt→ltb, ◌==◌,
}
use yuclase.Base.Int64.{ℤ, pos, negsuc, eq_ℤ}
use yuclase.Base.Bytes.{codes, decimal, decimal_ℤ}
use yuclase.Base.Exec.{Error, text, error_text, Result, ok, err, bind_result, pure, ◌>>=◌}
use yuclase.Base.Text.Numbers.{length-decimal}
use yuclase.Base.Scanner.{cut, drop_cr, token_limit}
use yuclase.Base.Scanner.Lines.{
  NoBreak, IsLine, append-NoBreak, cut-line, drop_cr-line, decimal-NoBreak, decimal_ℤ-NoBreak,
  length-decimal_ℤ, scan_int-decimal,
}
use yuclase.Server.Session.{crlf, bulk_reply, integer_reply, array_header, error_reply}
use yuclase.Client.Connection.{Client, ClientM, left, scan, scan_line}
use yuclase.Client.Replies.{
  bulk_string, content, read_bulk_string, numbered, element, element_line, read_elements, array,
  read_array, response, response_line, read_response,
}
use yuclase.Protocol.Reply.{
  Item, bulk, number, Reply, status, one, many, item_bytes, items_bytes, reply_bytes, item_text,
  listing, reply_text, ItemFits, ItemsFit, Fits,
}

-- The line `s`, and `rest` behind it.
abbrev pub lined : List ℕ → List ℕ → List ℕ
lined s rest = s ++ 13 ∷ 10 ∷ rest

-- The client goes on with these bytes.
pub record Brings (c : Client) (s : List ℕ) : Type 0 where
  pub going : c.stopped ≡ false
  pub bytes : c.stream.incoming ≡ s

abbrev scanned : Client → Bool → Result (Option (List ℕ)) × Client
scanned c b = if b then (ok none, c) else scan_line (cut c.stream.incoming) c

pub scan_line-some :
    (l rest : List ℕ) (c : Client)
    → length l < token_limit
    → scan_line (some (l, rest)) c ≡ (ok (some (drop_cr l)), left rest c)
scan_line-some l rest c h = rw (lt→ltb (length l) token_limit h) refl

module _ (c : Client) (s rest : List ℕ) where
  cut-lined : NoBreak s → cut (lined s rest) ≡ some (s ++ 13 ∷ [], rest)
  cut-lined h =
      ap cut (sym (append_assoc s (13 ∷ []) (10 ∷ rest)))
      ∙ cut-line (s ++ 13 ∷ []) rest (append-NoBreak s (13 ∷ []) h (refl, tt))

  -- The scanner gives the line, and goes on behind it.
  pub scan-lined : Brings c (lined s rest) → IsLine s → scan c ≡ (ok (some s), left rest c)
  unfolding scan
  scan-lined h l =
      ap (scanned c) h.going
      ∙ ap (λ t. scan_line (cut t) c) h.bytes
      ∙ ap (λ o. scan_line o c) (cut-lined l.0)
      ∙ scan_line-some (s ++ 13 ∷ []) rest c (omega (arith, l.1, length-append s (13 ∷ [])))
      ∙ ap (λ t. (ok (some t), left rest c)) (drop_cr-line s)

  -- What follows a scan of the line.
  pub after-lined :
      {A : Type 0} (f : Option (List ℕ) → ClientM A)
      → Brings c (lined s rest)
      → IsLine s
      → (scan >>= f) c ≡ f (some s) (left rest c)
  after-lined f h l =
      ap (λ (p : Result (Option (List ℕ)) × Client). bind_result p.0 f p.1) (scan-lined h l)

pub decimal-IsLine : (k n : ℕ) → (k == 10) ≡ false → IsLine (k ∷ decimal n)
decimal-IsLine k n h = ((h, decimal-NoBreak n), omega (arith, length-decimal n))

decimal_ℤ-IsLine : (n : ℤ) → IsLine (58 ∷ decimal_ℤ n)
decimal_ℤ-IsLine n = ((refl, decimal_ℤ-NoBreak n), omega (arith, length-decimal_ℤ n))

bulk_bytes :
    (s rest : List ℕ) → bulk_reply s ++ rest ≡ lined (36 ∷ decimal (length s)) (lined s rest)
bulk_bytes s rest = simp append_assoc

number_bytes : (n : ℤ) (rest : List ℕ) → integer_reply n ++ rest ≡ lined (58 ∷ decimal_ℤ n) rest
number_bytes n rest = simp append_assoc

fits_int : (s : List ℕ) → IsLine s → length s < 2 ^ 63
fits_int s h = omega (arith, h.1)

pub not_nil : (n : ℕ) → eq_ℤ (pos n) (negsuc 0) ≡ false
not_nil n = ground arith

module _ (c : Client) (s rest : List ℕ) where
  read_bulk_string_lem :
      Brings c (lined s rest)
      → IsLine s
      → read_bulk_string (36 ∷ decimal (length s)) c ≡ (ok s, left rest c)
  unfolding read_bulk_string
  read_bulk_string_lem h l =
      ap (λ r. bulk_string (36 ∷ decimal (length s)) r c)
        (scan_int-decimal (length s) (fits_int s l))
      ∙ ap (λ b. (if b then pure (codes "(nil)") else (scan >>= content)) c) (not_nil (length s))
      ∙ after-lined c s rest content h l

pub moved : (c : Client) (s t rest : List ℕ) → Brings c s → s ≡ t → Brings c t
moved c s t rest h e = record { going = h.going; bytes = h.bytes ∙ e }

pub behind : (c : Client) (s rest : List ℕ) → Brings c s → Brings (left rest c) rest
behind c s rest h = record { going = h.going; bytes = refl }

-- One element of an array.
element_lem :
    (k : ℕ) (i : Item) (c : Client) (rest : List ℕ)
    → Brings c (item_bytes i ++ rest)
    → ItemFits i
    → (scan >>= element_line k) c ≡ (ok (item_text i), left rest c)
unfolding element
element_lem k (bulk s) c rest h f =
    let header = 36 ∷ decimal (length s) in
    let h' =
      moved c (bulk_reply s ++ rest) (lined header (lined s rest)) rest h (bulk_bytes s rest) in
    after-lined c header (lined s rest) (element_line k) h' (decimal-IsLine 36 (length s) refl)
    ∙ read_bulk_string_lem (left (lined s rest) c) s rest
        (behind c (lined header (lined s rest)) (lined s rest) h') f
element_lem k (number n) c rest h f =
    after-lined c (58 ∷ decimal_ℤ n) rest (element_line k)
      (moved c (integer_reply n ++ rest) (lined (58 ∷ decimal_ℤ n) rest) rest h
        (number_bytes n rest))
      (decimal_ℤ-IsLine n)

-- All elements.
read_elements_lem :
    (is : List Item) (k : ℕ) (acc : List ℕ) (c : Client) (rest : List ℕ)
    → Brings c (items_bytes is ++ rest)
    → ItemsFit is
    → read_elements (length is) k acc c ≡ (ok (acc ++ listing k is), left rest c)
unfolding read_elements
read_elements_lem [] k acc c rest h f =
    ap (λ t. (ok t, c)) (sym (append-nil acc)) ∙ ap (λ r. (ok (acc ++ []), left r c)) h.bytes
read_elements_lem (i ∷ is) k acc c rest h f =
    let more = items_bytes is ++ rest in
    let h' =
      moved c ((item_bytes i ++ items_bytes is) ++ rest) (item_bytes i ++ more) rest h
        (append_assoc (item_bytes i) (items_bytes is) rest) in
    ap
      (λ (p : Result (List ℕ) × Client).
        bind_result p.0 (λ s. read_elements (length is) (suc k) (acc ++ numbered k s)) p.1)
      (element_lem k i c more h' f.0)
    ∙ read_elements_lem is (suc k) (acc ++ numbered k (item_text i)) (left more c) rest
        (behind c (item_bytes i ++ more) more h') f.1
    ∙ ap (λ t. (ok t, left rest c))
        (append_assoc acc (numbered k (item_text i)) (listing (suc k) is))

module _ (n : ℕ) where
  -- An array has its elements.
  array_lem :
      (is : List Item) (c : Client) (rest : List ℕ)
      → Brings c (items_bytes is ++ rest)
      → ItemsFit is
      → array (42 ∷ decimal n) (ok (pos (length is))) c ≡ (ok (reply_text (many is)), left rest c)
  array_lem [] c rest h f = ap (λ r. (ok (codes "(empty array)"), left r c)) h.bytes
  array_lem (i ∷ is) c rest h f = read_elements_lem (i ∷ is) 0 [] c rest h f

array_bytes :
    (n : ℕ) (s rest : List ℕ) → (array_header n ++ s) ++ rest ≡ lined (42 ∷ decimal n) (s ++ rest)
array_bytes n s rest = simp append_assoc

status_bytes : (s rest : List ℕ) → (43 ∷ s ++ crlf) ++ rest ≡ lined (43 ∷ s) rest
status_bytes s rest = simp append_assoc

error_bytes :
    (e : Error) (rest : List ℕ) → error_reply e ++ rest ≡ lined (codes "-ERR " ++ error_text e) rest
error_bytes e rest = simp append_assoc

pub read_response-reply :
    (r : Reply) (c : Client) (rest : List ℕ)
    → Brings c (reply_bytes r ++ rest)
    → Fits r
    → read_response c ≡ (ok (reply_text r), left rest c)
unfolding read_response response
read_response-reply (status s) c rest h f =
    after-lined c (43 ∷ s) rest response_line
      (moved c (reply_bytes (status s) ++ rest) (lined (43 ∷ s) rest) rest h (status_bytes s rest))
      f
read_response-reply (one (number n)) c rest h f =
    after-lined c (58 ∷ decimal_ℤ n) rest response_line
      (moved c (integer_reply n ++ rest) (lined (58 ∷ decimal_ℤ n) rest) rest h
        (number_bytes n rest))
      (decimal_ℤ-IsLine n)
read_response-reply (one (bulk s)) c rest h f =
    let header = 36 ∷ decimal (length s) in
    let h' =
      moved c (bulk_reply s ++ rest) (lined header (lined s rest)) rest h (bulk_bytes s rest) in
    after-lined c header (lined s rest) response_line h' (decimal-IsLine 36 (length s) refl)
    ∙ read_bulk_string_lem (left (lined s rest) c) s rest
        (behind c (lined header (lined s rest)) (lined s rest) h') f
read_response-reply (many is) c rest h f =
    let header = 42 ∷ decimal (length is) in
    let more = items_bytes is ++ rest in
    let h' =
      moved c (reply_bytes (many is) ++ rest) (lined header more) rest h
        (array_bytes (length is) (items_bytes is) rest) in
    after-lined c header more response_line h' (decimal-IsLine 42 (length is) refl)
    ∙ unfold read_array in
      ap (λ r. array header r (left more c)) (scan_int-decimal (length is) f.0)
      ∙ array_lem (length is) is (left more c) rest (behind c (lined header more) more h') f.1

-- An error reply is an error for the caller of `readResponse`, with the server's text, and takes
-- exactly its own bytes.
pub read_response-error_reply :
    (e : Error) (c : Client) (rest : List ℕ)
    → Brings c (error_reply e ++ rest)
    → IsLine (codes "-ERR " ++ error_text e)
    → read_response c ≡ (err (text (codes "server error: ERR " ++ error_text e)), left rest c)
unfolding read_response response
read_response-error_reply e c rest h f =
    after-lined c (codes "-ERR " ++ error_text e) rest response_line
      (moved c (error_reply e ++ rest) (lined (codes "-ERR " ++ error_text e) rest) rest h
        (error_bytes e rest))
      f
