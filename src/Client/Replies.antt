-- ===== src/Client/Replies.antt =====
-- internal/network/client.go: the parser of replies.
pub mod Ending
use yuclase.Base.{ℕ, zero, suc, Option, none, some, List, [], ◌∷◌, ◌++◌, drop, ◌==◌, if◌then◌else◌}
use yuclase.Base.Int64.{ℤ, pos, negsuc, eq_ℤ}
use yuclase.Base.Bytes.{codes, decimal}
use yuclase.Base.Scanner.{scan_int}
use yuclase.Base.Exec.{Error, text, Result, ok, err, panic, deadlock, stuck, pure, raise, ◌>>=◌}
use yuclase.Client.Connection.{ClientM, scan}

abbrev pub content : Option (List ℕ) → ClientM (List ℕ)
content (some line) = pure line
content none = raise (text (codes "failed to read bulk string content"))

abbrev pub bulk_string : List ℕ → Result ℤ → ClientM (List ℕ)
bulk_string header (ok n) = if eq_ℤ n (negsuc 0) then pure (codes "(nil)") else (scan >>= content)
bulk_string header _ = raise (text (codes "invalid bulk string header: " ++ header))

-- `readBulkString`; the `$` of the header has been seen.
unfoldable pub read_bulk_string : List ℕ → ClientM (List ℕ)
read_bulk_string header = bulk_string header (scan_int (drop 1 header))

-- fmt.Sprintf("%d) %s\n", i+1, s)
abbrev pub numbered : ℕ → List ℕ → List ℕ
numbered i s = decimal (suc i) ++ codes ") " ++ s ++ 10 ∷ []

-- One element of an array by its line; `line[0]` panics on an empty one.
unfoldable pub element : List ℕ → ClientM (List ℕ)
element [] = λ c. (panic, c)
element (b ∷ bs) =
    if b == 36 then read_bulk_string (b ∷ bs) else if b == 58 then pure bs else pure (b ∷ bs)

abbrev pub element_line : ℕ → Option (List ℕ) → ClientM (List ℕ)
element_line i (some line) = element line
element_line i none = raise (text (codes "failed to read array element " ++ decimal i))

-- The loop of `readArray`: `rounds` elements are left.
unfoldable pub read_elements : ℕ → ℕ → List ℕ → ClientM (List ℕ)
read_elements zero i result = pure result
read_elements (suc rounds) i result =
    scan >>= element_line i >>= λ s. read_elements rounds (suc i) (result ++ numbered i s)

abbrev pub array : List ℕ → Result ℤ → ClientM (List ℕ)
array header (ok (pos zero)) = pure (codes "(empty array)")
array header (ok (pos (suc n))) = read_elements (suc n) 0 []
array header (ok (negsuc zero)) = pure (codes "(nil)")
array header (ok (negsuc (suc n))) = pure []
array header _ = raise (text (codes "invalid array header: " ++ header))

-- `readArray`; the `*` of the header has been seen.
unfoldable pub read_array : List ℕ → ClientM (List ℕ)
read_array header = array header (scan_int (drop 1 header))

-- The switch of `readResponse`; `line[0]` panics on an empty line.
unfoldable pub response : List ℕ → ClientM (List ℕ)
response [] = λ c. (panic, c)
response (b ∷ bs) =
    if b == 43
    then pure bs
    else if b == 45
    then raise (text (codes "server error: " ++ bs))
    else if b == 58
    then pure bs
    else if b == 36
    then read_bulk_string (b ∷ bs)
    else if b == 42
    then read_array (b ∷ bs)
    else pure (b ∷ bs)

abbrev pub response_line : Option (List ℕ) → ClientM (List ℕ)
response_line (some line) = response line
response_line none = raise (text (codes "failed to read response"))

-- `readResponse`
unfoldable pub read_response : ClientM (List ℕ)
read_response = scan >>= response_line
