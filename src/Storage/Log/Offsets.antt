-- ===== src/Storage/Log/Offsets.antt =====
-- Global offsets of pkg/storage/log.go: segment and position in one int64.
use yuclase.Base.{ℕ, ◌+◌, ◌*◌, ◌^◌, ◌<◌, ◌≡◌, ◌∙◌, ap}
use mathlib.Core.Path.{ap₂}
use yuclase.Base.Int64.{pos, or64-shl32, shr32_pos, low32_pos}
use yuclase.Storage.Log.Writer.{get_global_offset, parse_global_offset}

pub get_global_offset_pos :
    (s n : ℕ) → s < 2 ^ 31 → n < 2 ^ 32 → get_global_offset (pos s) (pos n) ≡ pos (s * 2 ^ 32 + n)
unfolding get_global_offset
get_global_offset_pos s n hs hn = or64-shl32 s n hs hn

pub parse_global_offset_pos :
    (s n : ℕ) → n < 2 ^ 32 → parse_global_offset (pos (s * 2 ^ 32 + n)) ≡ (pos s, n)
unfolding parse_global_offset
parse_global_offset_pos s n hn = ap₂ (λ a b. (a, b)) (shr32_pos s n hn) (low32_pos s n hn)

-- For a segment index below 2 ^ 31 and a position below 2 ^ 32, `parseGlobalOffset` gives back the
-- segment index and the position that `getGlobalOffset` packed.
parse-get_global_offset :
    (s n : ℕ)
    → s < 2 ^ 31
    → n < 2 ^ 32
    → parse_global_offset (get_global_offset (pos s) (pos n)) ≡ (pos s, n)
parse-get_global_offset s n hs hn =
    ap parse_global_offset (get_global_offset_pos s n hs hn) ∙ parse_global_offset_pos s n hn
