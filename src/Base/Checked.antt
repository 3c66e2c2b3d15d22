-- ===== src/Base/Checked.antt =====
-- Code without state that may return early with an error: tests, sequences, and what a result tells.
use mathlib.Core.Path.{◌≡◌, refl}
use mathlib.Core.Bool.{Bool, true, false}
use mathlib.Core.Logic.{◌≢◌}
use ignium.Base.Results.{Result, ok, err, err≢ok}

infixl 5 ◌>>=◌ ◌>>◌
unfoldable pub ◌>>=◌ {ℓ κ μ} :
    {A : Type ℓ} {B : Type κ} {E : Type μ} → Result A E → (A → Result B E) → Result B E
ok a >>= f = f a
err e >>= f = err e

unfoldable pub ◌>>◌ {κ μ} :
    {B : Type κ} {E : Type μ} → Result (Unit {0}) E → Result B E → Result B E
ok u >> m = m
err e >> m = err e

-- `if bad { return Err(e); }`
unfoldable pub refuse {μ} : {E : Type μ} → Bool → E → Result (Unit {0}) E
refuse true e = err e
refuse false e = ok tt

module _ {ℓ} {A B E : Type 0} {C : Type ℓ} where
  -- A sequence that succeeds has run each of its parts.
  pub after_bind :
      (m : Result A E) (f : A → Result B E) {b : B}
      → (m >>= f) ≡ ok b
      → ((a : A) → m ≡ ok a → f a ≡ ok b → C)
      → C
  unfolding ◌>>=◌
  after_bind (ok a) f h g = g a refl h
  after_bind (err e) f h g = elim (err≢ok h) [ ]

module _ {A B E : Type 0} where
  pub avoid_bind :
      (m : Result A E) (f : A → Result B E) (e : E)
      → m ≢ err e
      → ((a : A) → m ≡ ok a → f a ≢ err e)
      → (m >>= f) ≢ err e
  unfolding ◌>>=◌
  avoid_bind (ok a) f e h g = g a refl
  avoid_bind (err x) f e h g = λ q. h (cc q)

module _ {ℓ} {B E : Type 0} {C : Type ℓ} where
  pub after_test :
      (b : Bool) (e : E) (m : Result B E) {r : B}
      → (refuse b e >> m) ≡ ok r
      → (b ≡ false → m ≡ ok r → C)
      → C
  unfolding ◌>>◌ refuse
  after_test true e m h g = elim (err≢ok h) [ ]
  after_test false e m h g = g refl h

  pub after_check :
      (c : Result (Unit {0}) E) (m : Result B E) {r : B}
      → (c >> m) ≡ ok r
      → (c ≡ ok tt → m ≡ ok r → C)
      → C
  unfolding ◌>>◌
  after_check (ok u) m h g = g refl h
  after_check (err e) m h g = elim (err≢ok h) [ ]

module _ {B E : Type 0} where
  pub avoid_test :
      (b : Bool) (x e : E) (m : Result B E)
      → x ≢ e
      → (b ≡ false → m ≢ err e)
      → (refuse b x >> m) ≢ err e
  unfolding ◌>>◌ refuse
  avoid_test true x e m h g = λ q. h (cc q)
  avoid_test false x e m h g = g refl

  pub avoid_check :
      (c : Result (Unit {0}) E) (m : Result B E) (e : E)
      → c ≢ err e
      → (c ≡ ok tt → m ≢ err e)
      → (c >> m) ≢ err e
  unfolding ◌>>◌
  avoid_check (ok u) m e h g = g refl
  avoid_check (err x) m e h g = λ q. h (cc q)
