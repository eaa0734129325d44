-- ===== src/Client/Replies/Ending.antt =====
-- internal/network/client.go: reading from a connection that ends.
use yuclase.Base.{
  ℕ, zero, suc, Bool, true, false, Option, none, some, List, [], ◌∷◌, ◌++◌, length, ltb, drop, ◌==◌,
  if◌then◌else◌, ◌≡◌, sym,
}
use mathlib.Core.Path.{subst}
use yuclase.Base.Int64.{ℤ, pos, negsuc, eq_ℤ}
use yuclase.Base.Bytes.{codes}
use yuclase.Base.Scanner.{cut, drop_cr, token_limit, scan_int}
use yuclase.Base.Exec.{
  Error, text, Result, ok, err, panic, deadlock, stuck, bind_result, pure, raise, ◌>>=◌,
}
use yuclase.Client.Connection.{
  Client, ClientM, closed, left, scan, scan_line, last_line, at_end, too_long,
}
use yuclase.Client.Replies.{
  content, bulk_string, read_bulk_string, numbered, element, element_line, read_elements, array,
  read_array, response, response_line, read_response,
}

-- The call came back, with a value, an error or a panic, and the connection still ends.
abbrev pub CameBack : {A : Type 0} → Result A → Type 0
CameBack (ok a) = Unit {0}
CameBack (err e) = Unit {0}
CameBack panic = Unit {0}
CameBack deadlock = ⊥
CameBack stuck = ⊥

pub record Returns {A : Type 0} (r : Result A × Client) : Type 0 where
  pub back : CameBack r.0
  pub ends : r.1.stream.ending ≡ closed

module _ {A B : Type 0} where
  pub bind-Returns :
      (r : Result A) (f : A → ClientM B) (c : Client)
      → Returns (r, c)
      → ((a : A) → Returns (f a c))
      → Returns (bind_result r f c)
  bind-Returns (ok a) f c h g = g a
  bind-Returns (err e) f c h g = record { back = tt; ends = h.ends }
  bind-Returns panic f c h g = record { back = tt; ends = h.ends }
  bind-Returns deadlock f c h g = absurd h.back
  bind-Returns stuck f c h g = absurd h.back

pub if-Returns :
    {A : Type 0} (b : Bool) (x y : Result A × Client)
    → Returns x
    → Returns y
    → Returns (if b then x else y)
if-Returns true x y h g = h
if-Returns false x y h g = g

last_line-Returns :
    (e : Option Error) (bs : List ℕ) (c : Client)
    → c.stream.ending ≡ closed
    → Returns (last_line e bs c)
last_line-Returns e [] c h = record { back = tt; ends = h }
last_line-Returns e (b ∷ bs) c h = record { back = tt; ends = h }

scan_line-Returns :
    (o : Option (List ℕ × List ℕ)) (c : Client) → c.stream.ending ≡ closed → Returns (scan_line o c)
scan_line-Returns (some (line, rest)) c h =
    if-Returns (ltb (length line) token_limit) (ok (some (drop_cr line)), left rest c) (too_long c)
      (record { back = tt; ends = h }) (record { back = tt; ends = h })
scan_line-Returns none c h =
    if-Returns (ltb (length c.stream.incoming) token_limit) (at_end c.stream.ending c) (too_long c)
      (subst (λ e. Returns (at_end e c)) (sym h) (last_line-Returns none c.stream.incoming c h))
      (record { back = tt; ends = h })

pub scan-Returns : (c : Client) → c.stream.ending ≡ closed → Returns (scan c)
unfolding scan
scan-Returns c h =
    if-Returns c.stopped (ok none, c) (scan_line (cut c.stream.incoming) c)
      (record { back = tt; ends = h }) (scan_line-Returns (cut c.stream.incoming) c h)

-- A scan and what follows it.
after_scan-Returns :
    {A : Type 0} (f : Option (List ℕ) → ClientM A) (c : Client)
    → c.stream.ending ≡ closed
    → ((o : Option (List ℕ)) (c' : Client) → c'.stream.ending ≡ closed → Returns (f o c'))
    → Returns ((scan >>= f) c)
after_scan-Returns f c h g =
    let s = scan-Returns c h in bind-Returns (scan c).0 f (scan c).1 s (λ o. g o (scan c).1 s.ends)

content-Returns :
    (o : Option (List ℕ)) (c : Client) → c.stream.ending ≡ closed → Returns (content o c)
content-Returns (some line) c h = record { back = tt; ends = h }
content-Returns none c h = record { back = tt; ends = h }

bulk_string-Returns :
    (header : List ℕ) (r : Result ℤ) (c : Client)
    → c.stream.ending ≡ closed
    → Returns (bulk_string header r c)
bulk_string-Returns header (ok n) c h =
    elim (eq_ℤ n (negsuc 0))
      as (λ b. Returns ((if b then pure (codes "(nil)") else (scan >>= content)) c)) [
        | true ↦ record { back = tt; ends = h }
        | false ↦ after_scan-Returns content c h content-Returns
      ]
bulk_string-Returns header (err e) c h = record { back = tt; ends = h }
bulk_string-Returns header panic c h = record { back = tt; ends = h }
bulk_string-Returns header deadlock c h = record { back = tt; ends = h }
bulk_string-Returns header stuck c h = record { back = tt; ends = h }

read_bulk_string-Returns :
    (header : List ℕ) (c : Client) → c.stream.ending ≡ closed → Returns (read_bulk_string header c)
unfolding read_bulk_string
read_bulk_string-Returns header c h = bulk_string-Returns header (scan_int (drop 1 header)) c h

-- A choice between two calls.
choice-Returns :
    (b : Bool) (x y : ClientM (List ℕ)) (c : Client)
    → Returns (x c)
    → Returns (y c)
    → Returns ((if b then x else y) c)
choice-Returns true x y c h g = h
choice-Returns false x y c h g = g

element-Returns : (line : List ℕ) (c : Client) → c.stream.ending ≡ closed → Returns (element line c)
unfolding element
element-Returns [] c h = record { back = tt; ends = h }
element-Returns (b ∷ bs) c h =
    choice-Returns (b == 36) (read_bulk_string (b ∷ bs))
      (if b == 58 then pure bs else pure (b ∷ bs)) c (read_bulk_string-Returns (b ∷ bs) c h)
      (choice-Returns (b == 58) (pure bs) (pure (b ∷ bs)) c (record { back = tt; ends = h })
        (record { back = tt; ends = h }))

element_line-Returns :
    (i : ℕ) (o : Option (List ℕ)) (c : Client)
    → c.stream.ending ≡ closed
    → Returns (element_line i o c)
element_line-Returns i (some line) c h = element-Returns line c h
element_line-Returns i none c h = record { back = tt; ends = h }

read_elements-Returns :
    (rounds i : ℕ) (result : List ℕ) (c : Client)
    → c.stream.ending ≡ closed
    → Returns (read_elements rounds i result c)
unfolding read_elements
read_elements-Returns zero i result c h = record { back = tt; ends = h }
read_elements-Returns (suc rounds) i result c h =
    let one = after_scan-Returns (element_line i) c h (element_line-Returns i) in
    let c' = ((scan >>= element_line i) c).1 in
    bind-Returns ((scan >>= element_line i) c).0
      (λ s. read_elements rounds (suc i) (result ++ numbered i s)) c' one
      (λ s. read_elements-Returns rounds (suc i) (result ++ numbered i s) c' one.ends)

array-Returns :
    (header : List ℕ) (r : Result ℤ) (c : Client)
    → c.stream.ending ≡ closed
    → Returns (array header r c)
array-Returns header (ok (pos zero)) c h = record { back = tt; ends = h }
array-Returns header (ok (pos (suc n))) c h = read_elements-Returns (suc n) 0 [] c h
array-Returns header (ok (negsuc zero)) c h = record { back = tt; ends = h }
array-Returns header (ok (negsuc (suc n))) c h = record { back = tt; ends = h }
array-Returns header (err e) c h = record { back = tt; ends = h }
array-Returns header panic c h = record { back = tt; ends = h }
array-Returns header deadlock c h = record { back = tt; ends = h }
array-Returns header stuck c h = record { back = tt; ends = h }

response-Returns :
    (line : List ℕ) (c : Client) → c.stream.ending ≡ closed → Returns (response line c)
unfolding response read_array
response-Returns [] c h = record { back = tt; ends = h }
response-Returns (b ∷ bs) c h =
    let line = b ∷ bs in
    let other : ClientM (List ℕ) = pure line in
    let many = if b == 42 then read_array line else other in
    let bulk = if b == 36 then read_bulk_string line else many in
    let number = if b == 58 then pure bs else bulk in
    let error = if b == 45 then raise (text (codes "server error: " ++ bs)) else number in
    let now : Returns (ok bs, c) = record { back = tt; ends = h } in
    choice-Returns (b == 43) (pure bs) error c now (
      choice-Returns (b == 45) (raise (text (codes "server error: " ++ bs))) number c
        (record { back = tt; ends = h })
        (choice-Returns (b == 58) (pure bs) bulk c now (
          choice-Returns (b == 36) (read_bulk_string line) many c
            (read_bulk_string-Returns line c h)
            (choice-Returns (b == 42) (read_array line) other c
              (array-Returns line (scan_int (drop 1 line)) c h) (record { back = tt; ends = h })))))

response_line-Returns :
    (o : Option (List ℕ)) (c : Client) → c.stream.ending ≡ closed → Returns (response_line o c)
response_line-Returns (some line) c h = response-Returns line c h
response_line-Returns none c h = record { back = tt; ends = h }

-- `readResponse` always comes back on a connection that ends, whatever bytes the server has sent
-- before: the loop of an array ends with its elements or with the connection.
pub read_response-Returns : (c : Client) → c.stream.ending ≡ closed → Returns (read_response c)
unfolding read_response
read_response-Returns c h = after_scan-Returns response_line c h response_line-Returns
