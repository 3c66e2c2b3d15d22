-- ===== src/Base/Rules.antt =====
-- Rules for what holds of the state after a sequence of statements: a test or a reading that fails
-- leaves the state alone, and one that passes is known in what follows.
use mathlib.Core.Path.{◌≡◌, refl}
use mathlib.Core.Bool.{Bool, true, false}
use ignium.Base.Results.{Result, ok, err, Op, ◌>>=◌, ◌>>◌, reading, fail_if, resume}

module _ {ℓ} {S E A B : Type 0} (P : S → Type ℓ) where
  resume_rule :
      (r : Result A E) (s : S) (f : A → Op S E B)
      → P s
      → ((a : A) → r ≡ ok a → P (f a s).1)
      → P (resume (r, s) f).1
  resume_rule (ok a) s f p h = h a refl
  resume_rule (err e) s f p h = p

  pub after_reading :
      (f : S → Result A E) (g : A → Op S E B) (s : S)
      → P s
      → ((a : A) → f s ≡ ok a → P (g a s).1)
      → P ((reading f >>= g) s).1
  unfolding ◌>>=◌ reading
  after_reading f g s p h = resume_rule (f s) s g p h

module _ {ℓ} {S E B : Type 0} (P : S → Type ℓ) where
  pub after_check :
      (f : S → Result (Unit {0}) E) (m : Op S E B) (s : S)
      → P s
      → (f s ≡ ok tt → P (m s).1)
      → P ((reading f >> m) s).1
  unfolding ◌>>◌ ◌>>=◌ reading
  after_check f m s p h = resume_rule P (f s) s (λ _. m) p (λ _ e. h e)

  pub after_test :
      (b : Bool) (e : E) (m : Op S E B) (s : S)
      → P s
      → (b ≡ false → P (m s).1)
      → P ((fail_if b e >> m) s).1
  unfolding ◌>>◌ ◌>>=◌ fail_if
  after_test true e m s p h = p
  after_test false e m s p h = h refl

-- The same for what holds of the result and the state together: an early error returns it at once.
module _ {ℓ} {S E A B : Type 0} (P : Result B E × S → Type ℓ) where
  resume_outcome :
      (r : Result A E) (s : S) (f : A → Op S E B)
      → ((e : E) → P (err e, s))
      → ((a : A) → r ≡ ok a → P (f a s))
      → P (resume (r, s) f)
  resume_outcome (ok a) s f p h = h a refl
  resume_outcome (err e) s f p h = p e

  pub outcome_reading :
      (f : S → Result A E) (g : A → Op S E B) (s : S)
      → ((e : E) → P (err e, s))
      → ((a : A) → f s ≡ ok a → P (g a s))
      → P ((reading f >>= g) s)
  unfolding ◌>>=◌ reading
  outcome_reading f g s p h = resume_outcome (f s) s g p h

module _ {ℓ} {S E B : Type 0} (P : Result B E × S → Type ℓ) where
  pub outcome_check :
      (f : S → Result (Unit {0}) E) (m : Op S E B) (s : S)
      → ((e : E) → P (err e, s))
      → (f s ≡ ok tt → P (m s))
      → P ((reading f >> m) s)
  unfolding ◌>>◌ ◌>>=◌ reading
  outcome_check f m s p h = resume_outcome P (f s) s (λ _. m) p (λ _ e. h e)

  pub outcome_test :
      (b : Bool) (e : E) (m : Op S E B) (s : S)
      → ((e : E) → P (err e, s))
      → (b ≡ false → P (m s))
      → P ((fail_if b e >> m) s)
  unfolding ◌>>◌ ◌>>=◌ fail_if
  outcome_test true e m s p h = p e
  outcome_test false e m s p h = h refl
