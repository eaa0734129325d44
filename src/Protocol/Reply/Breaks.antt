-- ===== src/Protocol/Reply/Breaks.antt =====
-- internal/network: a message that ends with a line feed, in a reply to LISTEN.
use yuclase.Base.{ℕ, List, [], ◌∷◌, ◌++◌}
use yuclase.Client.Connection.{Client}

-- The message: `s`, which has no line feed, and a line feed.
abbrev pub broken : List ℕ → List ℕ
broken s = s ++ 10 ∷ []
