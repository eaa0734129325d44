-- ===== src/Base/Outcomes.antt =====
-- What follows when a sequence of steps returns.
use mathlib.Core.Path.{◌≡◌, refl}
use mathlib.Core.List.{List}
use Prim.Native.Nat.{ℕ}
use native.Mathlib.Omega.{arith}
use yuclase.Base.Exec.{
  Result, ok, err, panic, deadlock, stuck, Exec, bind_result, ◌>>◌, wrap_result,
}

module _ {ℓ} {A : Type ℓ} where
  -- A result that is wrapped and returned was returned.
  pub unwrap : (c : List ℕ) (r : Result A) (a : A) → wrap_result c r ≡ ok a → r ≡ ok a
  unwrap c (ok b) a h = h
  unwrap c (err e) a h = ground arith
  unwrap c panic a h = ground arith
  unwrap c deadlock a h = ground arith
  unwrap c stuck a h = ground arith

module _ {ℓ κ ι} {S : Type ℓ} {A : Type κ} {B : Type ι} where
  -- A sequence that returns has a first step that returns.
  pub bind_ok :
      (r : Result A) (k : A → Exec S B) (s : S) (b : B)
      → (bind_result r k s).0 ≡ ok b
      → (a : A) × (r ≡ ok a) × ((k a s).0 ≡ ok b) × ((bind_result r k s).1 ≡ (k a s).1)
  bind_ok (ok a) k s b h = (a, refl, h, refl)
  bind_ok (err e) k s b h = ground arith
  bind_ok panic k s b h = ground arith
  bind_ok deadlock k s b h = ground arith
  bind_ok stuck k s b h = ground arith

module _ {ℓ κ} {S : Type ℓ} {B : Type κ} where
  -- A step and the rest, both of which return.
  pub then_ok :
      (m : Exec S (Unit {0})) (k : Exec S B) (s : S) (b : B)
      → ((m >> k) s).0 ≡ ok b
      → ((m s).0 ≡ ok tt) × ((k (m s).1).0 ≡ ok b) × (((m >> k) s).1 ≡ (k (m s).1).1)
  then_ok m k s b h =
      let (a, r, later, end) = bind_ok (m s).0 (λ _. k) (m s).1 b h in (r, later, end)
