-- ===== src/Config/Valid.antt =====
-- What a configuration that `LoadConfig` of internal/config/config.go returns satisfies.
use yuclase.Base.{
  ℕ, ◌*◌, ◌-◌, ◌^◌, ◌<◌, ◌≤◌, ◌≡◌, refl, sym, ap, ◌∙◌, Bool, true, false, ◌||◌, List, ltb,
  if◌then◌else◌, Bool-cases, inl, inr, arith,
}
use mathlib.Core.Path.{subst}
use yuclase.Base.Int64.{
  ℤ, pos, negsuc, pos_part, neg_part, sub_ℕ, signed64, pattern64, wrap64, ltb_ℤ, leb_ℤ,
}
use yuclase.Base.Exec.{
  Error, Result, ok, err, panic, deadlock, stuck, wrap_result, Exec, ◌>>◌, gets,
}
use yuclase.Base.Outcomes.{unwrap, then_ok}
use yuclase.Config.{Config}
use yuclase.Config.Size.{parse_size, scaled, split_unit}
use yuclase.Base.Text.{to_upper, trim_space, parse_int}
use yuclase.Config.Load.{
  validate, stored, parse_into, parse_and_validate, set_segment_bytes, set_write_bytes,
  set_read_bytes, set_sync, set_cleanup, parse_write_buffer, parse_read_buffer, parse_sync,
  parse_cleanup, check_values, World, load_config, load_file_step, env_step, validation_step,
  defaults,
}

-- A size in bytes: not negative, and an int64.
abbrev pub IsSize : ℤ → Type 0
IsSize z = (n : ℕ) × (z ≡ pos n) × (n < 2 ^ 63)

negative_fails : (n : ℕ) → ltb_ℤ (negsuc n) (pos 0) ≡ false → ⊥
negative_fails n h = ground arith

signed64-IsSize : (w : ℕ) → ltb_ℤ (signed64 w) (pos 0) ≡ false → IsSize (signed64 w)
unfolding signed64
signed64-IsSize w h = elim (Bool-cases (ltb w (2 ^ 63))) [
  | inl small ↦ rw small (w, refl, ground arith)
  | inr large ↦ rw large (
      absurd (
        negative_fails (2 ^ 64 - w - 1) (
          subst (λ b. ltb_ℤ (if b then pos w else negsuc (2 ^ 64 - w - 1)) (pos 0) ≡ false) large
            h)))
]

checked :
    (b : Bool) (e : Error) (w z : ℤ) → (if b then err e else ok w) ≡ ok z → (b ≡ false) × (w ≡ z)
checked true e w z h = ground arith
checked false e w z h = (refl, ground arith)

scaled-IsSize : (m : ℕ) (r : Result ℤ) (z : ℤ) → scaled m r ≡ ok z → IsSize z
unfolding scaled wrap64
scaled-IsSize m (ok x) z h =
    let n = pattern64 (sub_ℕ (pos_part x * m) (neg_part x * m)) in
    let (small, same) = checked (ltb_ℤ (signed64 n) (pos 0)) _ (signed64 n) z h in
    subst IsSize same (signed64-IsSize n small)
scaled-IsSize m (err e) z h = ground arith
scaled-IsSize m panic z h = ground arith
scaled-IsSize m deadlock z h = ground arith
scaled-IsSize m stuck z h = ground arith

-- A size that `parseSize` returns is not negative.
pub parse_size-IsSize : (s : List ℕ) (z : ℤ) → parse_size s ≡ ok z → IsSize z
unfolding parse_size
parse_size-IsSize s z h =
    let (num, m) = split_unit (to_upper (trim_space s)) in scaled-IsSize m (parse_int num) z h

-- The configuration that the program starts with.
pub record IsValid (c : Config) : Type 0 where
  pub port : (n : ℕ) × (c.server.port ≡ pos n) × (0 < n) × (n ≤ 65535)
  pub retention : (n : ℕ) × (c.storage.retention_hours ≡ pos n) × (0 < n)
  pub interval : (n : ℕ) × (c.storage.index_interval ≡ pos n) × (0 < n)
  pub segment : IsSize c.storage.log_segment_bytes
  pub write_buffer : IsSize c.performance.write_buffer_bytes
  pub read_buffer : IsSize c.performance.read_buffer_bytes

stored_ok :
    (set : ℤ → Config → Config) (r : Result ℤ) (c : Config)
    → (stored set r c).0 ≡ ok tt
    → (z : ℤ) × (r ≡ ok z) × ((stored set r c).1 ≡ set z c)
unfolding stored
stored_ok set (ok z) c h = (z, refl, refl)
stored_ok set (err e) c h = ground arith
stored_ok set panic c h = ground arith
stored_ok set deadlock c h = ground arith
stored_ok set stuck c h = ground arith

module _ (parse : List ℕ → Result ℤ) (message : List ℕ) (get : Config → List ℕ)
    (set : ℤ → Config → Config) (c : Config) where
  -- A field that is parsed holds what the parser returned.
  parse_into_ok :
      (parse_into parse message get set c).0 ≡ ok tt
      → (z : ℤ) × (parse (get c) ≡ ok z) × ((parse_into parse message get set c).1 ≡ set z c)
  unfolding parse_into
  parse_into_ok h =
      let (z, r, e) = stored_ok set (wrap_result message (parse (get c))) c h in
      (z, unwrap message (parse (get c)) z r, e)

module _ (parse : List ℕ → Result ℤ) (message : List ℕ) (get : Config → List ℕ)
    (set : ℤ → Config → Config) (c : Config) (k : Exec Config (Unit {0})) where
  -- The steps behind a field that is parsed.
  parse_then :
      ((parse_into parse message get set >> k) c).0 ≡ ok tt
      → (z : ℤ) × (parse (get c) ≡ ok z)
        × ((k (set z c)).0 ≡ ok tt)
        × (((parse_into parse message get set >> k) c).1 ≡ (k (set z c)).1)
  parse_then h =
      let (first, later, end) = then_ok (parse_into parse message get set) k c tt h in
      let (z, r, e) = parse_into_ok parse message get set c first in
      (z, r, subst (λ s. (k s).0 ≡ ok tt) e later, end ∙ ap (λ s. (k s).1) e)

abbrev Passes : Bool → Bool → Bool → Error → Error → Error → Type 0
Passes a b d e f g =
    let r : Result (Unit {0}) =
      if a then err e else if b then err f else if d then err g else ok tt in
    r ≡ ok tt

three_tests :
    (a b d : Bool) (e f g : Error) → Passes a b d e f g → (a ≡ false) × (b ≡ false) × (d ≡ false)
three_tests true b d e f g h = ground arith
three_tests false true d e f g h = ground arith
three_tests false false true e f g h = ground arith
three_tests false false false e f g h = (refl, refl, refl)

positive_value : (z : ℤ) → leb_ℤ z (pos 0) ≡ false → (n : ℕ) × (z ≡ pos n) × (0 < n)
positive_value (pos n) h = (n, refl, ground arith)
positive_value (negsuc n) h = absurd (ground arith)

port_value :
    (z : ℤ)
    → (leb_ℤ z (pos 0) || ltb_ℤ (pos 65535) z) ≡ false
    → (n : ℕ) × (z ≡ pos n) × (0 < n) × (n ≤ 65535)
port_value (pos n) h = (n, refl, ground arith, ground arith)
port_value (negsuc n) h = absurd (ground arith)

-- The configuration after the values `s`, `w`, `r`, `d` and `e` are stored.
abbrev parsed : ℤ → ℤ → ℤ → ℤ → ℤ → Config → Config
parsed s w r d e c =
    set_cleanup e (set_sync d (set_read_bytes r (set_write_bytes w (set_segment_bytes s c))))

validate-IsValid :
    (s w r d e : ℤ) (c : Config)
    → IsSize s
    → IsSize w
    → IsSize r
    → validate (parsed s w r d e c) ≡ ok tt
    → IsValid (parsed s w r d e c)
unfolding validate
validate-IsValid s w r d e c hs hw hr h =
    let (port, retention, interval) = three_tests _ _ _ _ _ _ h in
    record {
      port = port_value c.server.port port;
      retention = positive_value c.storage.retention_hours retention;
      interval = positive_value c.storage.index_interval interval;
      segment = hs;
      write_buffer = hw;
      read_buffer = hr;
    }

module _ (parse_duration : List ℕ → Result ℤ) (c : Config) where
  -- A configuration that `parseAndValidate` accepts is valid when it returns.
  parse_and_validate-IsValid :
      (parse_and_validate parse_duration c).0 ≡ ok tt
      → IsValid (parse_and_validate parse_duration c).1
  unfolding parse_and_validate
  parse_and_validate-IsValid h =
      let k5 = check_values in
      let k4 = parse_cleanup parse_duration >> k5 in
      let k3 = parse_sync parse_duration >> k4 in
      let k2 = parse_read_buffer >> k3 in
      let k1 = parse_write_buffer >> k2 in
      let (s, ps, h1, e1) = parse_then parse_size _ _ set_segment_bytes c k1 h in
      let (w, pw, h2, e2) = parse_then parse_size _ _ set_write_bytes _ k2 h1 in
      let (r, pr, h3, e3) = parse_then parse_size _ _ set_read_bytes _ k3 h2 in
      let (d, pd, h4, e4) = parse_then parse_duration _ _ set_sync _ k4 h3 in
      let (e, pe, h5, e5) = parse_then parse_duration _ _ set_cleanup _ k5 h4 in
      subst IsValid (sym (e1 ∙ e2 ∙ e3 ∙ e4 ∙ e5)) (
        validate-IsValid s w r d e c (parse_size-IsSize _ s ps) (parse_size-IsSize _ w pw)
          (parse_size-IsSize _ r pr) h5)

ok-injective : (c d : Config) → ok c ≡ ok d → c ≡ d
ok-injective c d h = ground arith

-- A configuration that `LoadConfig` returns has a port from 1 to 65535, a retention time and an
-- index interval of 1 or more, and sizes that are int64 values of 0 or more, whatever the file, the
-- environment and the parser of durations gave.
pub load_config-IsValid :
    (w : World) (path : List ℕ) (c : Config) → load_config w path ≡ ok c → IsValid c
unfolding load_config
load_config-IsValid w path c h =
    let k2 = validation_step w >> gets (λ s. s) in
    let (_, h1, _) = then_ok (load_file_step w path) (env_step w >> k2) defaults c h in
    let d = (load_file_step w path defaults).1 in
    let (_, h2, _) = then_ok (env_step w) k2 d c h1 in
    let e = (env_step w d).1 in
    let (accepted, h3, _) = then_ok (validation_step w) (gets (λ s. s)) e c h2 in
    let same : (parse_and_validate w.parse_duration e).1 ≡ c = ok-injective _ c h3 in
    subst IsValid same (
      parse_and_validate-IsValid w.parse_duration e
        (unwrap _ (parse_and_validate w.parse_duration e).0 tt accepted))
