-- ===== src/Base/Exec.antt =====
-- What a Go method gives: its (value, error) pair, a panic, or no return at all. What was written
-- before an error stays written, so the state comes back beside every result.
use mathlib.Core.List.{List, ◌++◌}
use Prim.Native.Nat.{ℕ}
use mathlib.Core.Bool.{Bool, true, false}
use mathlib.Core.Option.{Option, none, some}
use yuclase.Base.Bytes.{codes}

-- The calls of the operating system that can fail.
pub data Syscall : Type 0 where
  mkdir_call open_call stat_call write_call sync_call seek_call read_call : Syscall
  read_dir_call remove_call rename_call truncate_call close_call : Syscall

-- `wrap c e` is `fmt.Errorf("c: %w", e)`, `text t` an error with that text.
pub data Error : Type 0 where
  eof unexpected_eof not_exist : Error
  os_error : Syscall → Error
  text : List ℕ → Error
  wrap : List ℕ → Error → Error

-- `err.Error()`
unfoldable pub error_text : Error → List ℕ
error_text eof = codes "EOF"
error_text unexpected_eof = codes "unexpected EOF"
error_text not_exist = codes "no such file or directory"
error_text (os_error c) = codes "input/output error"
error_text (text t) = t
error_text (wrap c e) = c ++ codes ": " ++ error_text e

-- `panic` is a run-time panic, `deadlock` a wait for a lock that is never released; `stuck` is no
-- Go value: a loop of the model ran out of fuel.
pub data Result {ℓ} (A : Type ℓ) : Type ℓ where
  ok : A → Result A
  err : Error → Result A
  panic deadlock stuck : Result A

abbrev pub Exec {ℓ κ} : Type ℓ → Type κ → Type (ℓ ⊔ κ)
Exec S A = S → Result A × S

-- `if err != nil { return fmt.Errorf("c: %w", err) }` about a call.
abbrev pub wrap_result {ℓ} : {A : Type ℓ} → List ℕ → Result A → Result A
wrap_result c (ok a) = ok a
wrap_result c (err e) = err (wrap c e)
wrap_result c panic = panic
wrap_result c deadlock = deadlock
wrap_result c stuck = stuck

module _ {ℓ κ} {S : Type ℓ} {A : Type κ} where
  abbrev pub pure : A → Exec S A
  pure a s = (ok a, s)

  abbrev pub raise : Error → Exec S A
  raise e s = (err e, s)

  abbrev pub lift : Result A → Exec S A
  lift r s = (r, s)

  abbrev pub gets : (S → A) → Exec S A
  gets f s = (ok (f s), s)

  abbrev pub from_option : Error → Option A → Exec S A
  from_option e none s = (err e, s)
  from_option e (some a) s = (ok a, s)

  abbrev pub wrapping : List ℕ → Exec S A → Exec S A
  wrapping c m s = let (r, s') = m s in (wrap_result c r, s')

abbrev pub modify {ℓ} : {S : Type ℓ} → (S → S) → Exec S (Unit {0})
modify f s = (ok tt, f s)

abbrev pub when {ℓ} : {S : Type ℓ} → Bool → Exec S (Unit {0}) → Exec S (Unit {0})
when true m = m
when false m = λ s. (ok tt, s)

module _ {ℓ κ ι} {S : Type ℓ} {A : Type κ} {B : Type ι} where
  abbrev pub bind_result : Result A → (A → Exec S B) → Exec S B
  bind_result (ok a) f s = f a s
  bind_result (err e) f s = (err e, s)
  bind_result panic f s = (panic, s)
  bind_result deadlock f s = (deadlock, s)
  bind_result stuck f s = (stuck, s)

  infixl 5 ◌>>=◌
  abbrev pub ◌>>=◌ : Exec S A → (A → Exec S B) → Exec S B
  (m >>= f) s = let (r, s') = m s in bind_result r f s'

infixl 5 ◌>>◌
abbrev pub ◌>>◌ {ℓ κ} : {S : Type ℓ} {B : Type κ} → Exec S (Unit {0}) → Exec S B → Exec S B
m >> k = m >>= λ _. k
