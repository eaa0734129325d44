-- ===== src/Storage/Document.antt =====
-- The consumer records of pkg/storage/catalog.go, and what its JSON file can hold.
use yuclase.Base.{ℕ, List, Option}
use yuclase.Base.Int64.{ℤ}

pub record ConsumerOffset : Type 0 where
  pub consumer_id : List ℕ
  pub offset : ℤ
  pub last_updated : ℤ
  pub last_commit : ℤ

-- A Go map; `none` is the nil map.
abbrev pub ConsumerMap : Type 0
ConsumerMap = Option (List (List ℕ × ConsumerOffset))

-- A byte slice as `json.Unmarshal` into a `map[string]*ConsumerOffset` sees it: empty, the JSON
-- `null` or object of some map, or anything that is refused.
pub data Document : Type 0 where
  blank malformed : Document
  json : ConsumerMap → Document
