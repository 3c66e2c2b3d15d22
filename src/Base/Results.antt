-- ===== src/Base/Results.antt =====
-- Rust's `Result<T, E>`, and code that reads and changes a state and may return early with an error.
use mathlib.Core.Bool.{Bool, true, false}
use mathlib.Core.Logic.{◌≢◌}
use mathlib.Core.Option.{Option, none, some}

pub data Result {ℓ κ} (A : Type ℓ) (E : Type κ) : Type (ℓ ⊔ κ) where
  ok : A → Result A E
  err : E → Result A E

abbrev pub is_ok {ℓ κ} : {A : Type ℓ} {E : Type κ} → Result A E → Bool
is_ok (ok a) = true
is_ok (err e) = false

-- `o.ok_or(e)`
abbrev pub or_err {ℓ κ} : {A : Type ℓ} {E : Type κ} → Option A → E → Result A E
or_err none e = err e
or_err (some a) e = ok a

abbrev pub is_some {ℓ} : {A : Type ℓ} → Option A → Bool
is_some none = false
is_some (some a) = true

-- An operation returns its result and the state that it leaves, also on an error.
abbrev pub Op : Type 0 → Type 0 → Type 0 → Type 0
Op S E A = S → Result A E × S

module _ {S E : Type 0} where
  unfoldable pub return : {A : Type 0} → A → Op S E A
  return a s = (ok a, s)

  unfoldable pub fail : {A : Type 0} → E → Op S E A
  fail e s = (err e, s)

  abbrev pub resume : {A B : Type 0} → Result A E × S → (A → Op S E B) → Result B E × S
  resume (ok a, s) f = f a s
  resume (err e, s) f = (err e, s)

  infixl 5 ◌>>=◌ ◌>>◌
  unfoldable pub ◌>>=◌ : {A B : Type 0} → Op S E A → (A → Op S E B) → Op S E B
  ◌>>=◌ m f s = resume (m s) f

  unfoldable pub ◌>>◌ : {B : Type 0} → Op S E (Unit {0}) → Op S E B → Op S E B
  unfolding ◌>>=◌
  m >> k = m >>= λ _. k

  -- `if bad { return Err(e); }`
  unfoldable pub fail_if : Bool → E → Op S E (Unit {0})
  fail_if true e s = (err e, s)
  fail_if false e s = (ok tt, s)

  -- A result computed from the state without changing it.
  unfoldable pub reading : {A : Type 0} → (S → Result A E) → Op S E A
  reading f s = (f s, s)

pub err≢ok {ℓ κ} : {A : Type ℓ} {E : Type κ} {e : E} {a : A} → err e ≢ ok a
err≢ok h = cc
