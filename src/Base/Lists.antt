-- ===== src/Base/Lists.antt =====
-- Lists measured and indexed by native numbers (`Vec`, slices), queues of indices (`VecDeque`),
-- and fixed arrays as functions.
use Prim.Native.Nat.{ℕ, zero, suc, ◌+◌, ◌<◌, ◌≤◌}
use mathlib.Core.Path.{◌≡◌, refl, ap, ◌∙◌}
use mathlib.Core.Bool.{Bool, true, false, ◌||◌}
use mathlib.Core.List.{List, [], ◌∷◌, ◌++◌}
use mathlib.Core.Option.{Option, none, some}
use mathlib.Core.Logic.{◌⊎◌, inl, inr}
use native.Mathlib.Omega.{arith}
use ignium.Base.Tests.{◌==◌, if◌then◌else◌}

module _ {ℓ} {A : Type ℓ} where
  abbrev pub length : List A → ℕ
  length [] = 0
  length (x ∷ xs) = suc (length xs)

  abbrev pub get_elem? : List A → ℕ → Option A
  get_elem? [] i = none
  get_elem? (x ∷ xs) zero = some x
  get_elem? (x ∷ xs) (suc i) = get_elem? xs i

  -- A write out of bounds changes nothing.
  abbrev pub set : List A → ℕ → A → List A
  set [] i v = []
  set (x ∷ xs) zero v = v ∷ xs
  set (x ∷ xs) (suc i) v = x ∷ set xs i v

  abbrev pub take : ℕ → List A → List A
  take zero xs = []
  take (suc n) [] = []
  take (suc n) (x ∷ xs) = x ∷ take n xs

  -- What a write leaves to be read at the same index.
  abbrev pub overwrite : Option A → A → Option A
  overwrite none v = none
  overwrite (some x) v = some v

module _ {ℓ} {A : Type ℓ} where
  pub length-append : (xs ys : List A) → length (xs ++ ys) ≡ length xs + length ys
  length-append [] ys = omega arith
  length-append (x ∷ xs) ys = omega (arith, length-append xs ys)

  pub take_all : (n : ℕ) (xs : List A) → length xs ≤ n → take n xs ≡ xs
  take_all zero [] h = refl
  take_all zero (x ∷ xs) h = ground (arith, h)
  take_all (suc n) [] h = refl
  take_all (suc n) (x ∷ xs) h = ap (λ l. x ∷ l) (take_all n xs (omega (arith, h)))

  pub length-set : (xs : List A) (i : ℕ) (v : A) → length (set xs i v) ≡ length xs
  length-set [] i v = refl
  length-set (x ∷ xs) zero v = refl
  length-set (x ∷ xs) (suc i) v = ap suc (length-set xs i v)

  pub get_elem?-set :
      (xs : List A) (i j : ℕ) (v : A)
      → get_elem? (set xs i v) j ≡ (if i == j then overwrite (get_elem? xs j) v else get_elem? xs j)
  get_elem?-set [] i j v = ground arith
  get_elem?-set (x ∷ xs) zero zero v = refl
  get_elem?-set (x ∷ xs) zero (suc j) v = ground arith
  get_elem?-set (x ∷ xs) (suc i) zero v = ground arith
  get_elem?-set (x ∷ xs) (suc i) (suc j) v = ground (arith, get_elem?-set xs i j v)

  pub get_elem?-push :
      (xs : List A) (j : ℕ) (v : A)
      → get_elem? (xs ++ v ∷ []) j ≡ (if length xs == j then some v else get_elem? xs j)
  get_elem?-push [] zero v = refl
  get_elem?-push [] (suc j) v = ground arith
  get_elem?-push (x ∷ xs) zero v = ground arith
  get_elem?-push (x ∷ xs) (suc j) v = ground (arith, get_elem?-push xs j v)

  pub get_elem?-bound : (xs : List A) (j : ℕ) {v : A} → get_elem? xs j ≡ some v → j < length xs
  get_elem?-bound [] j h = ground arith
  get_elem?-bound (x ∷ xs) zero h = omega arith
  get_elem?-bound (x ∷ xs) (suc j) h = omega (arith, get_elem?-bound xs j h)

  pub get_elem?-total : (xs : List A) (j : ℕ) → j < length xs → (v : A) × (get_elem? xs j ≡ some v)
  get_elem?-total [] j h = elim h [ ]
  get_elem?-total (x ∷ xs) zero h = (x, refl)
  get_elem?-total (x ∷ xs) (suc j) h = get_elem?-total xs j (omega arith)

  pub get_elem?-end : (xs : List A) (j : ℕ) → length xs ≤ j → get_elem? xs j ≡ none
  get_elem?-end [] j h = refl
  get_elem?-end (x ∷ xs) zero h = ground arith
  get_elem?-end (x ∷ xs) (suc j) h = get_elem?-end xs j (omega arith)

pub List-cases {ℓ} :
    {A : Type ℓ} (xs : List A) → (xs ≡ []) ⊎ ((y : A) × (ys : List A) × (xs ≡ y ∷ ys))
List-cases [] = inl refl
List-cases (x ∷ xs) = inr (x, xs, refl)

-- A fixed array, written at one index.
abbrev pub update {ℓ} : {A : Type ℓ} → (ℕ → A) → ℕ → A → ℕ → A
update f i v j = if i == j then v else f j

-- Membership in a queue of indices.
abbrev pub contains : List ℕ → ℕ → Bool
contains [] a = false
contains (x ∷ xs) a = x == a || contains xs a

-- No index stands twice in the queue.
abbrev pub Distinct : List ℕ → Type 0
Distinct [] = Unit
Distinct (x ∷ xs) = (contains xs x ≡ false) × Distinct xs

pub contains-push : (xs : List ℕ) (a b : ℕ) → contains (xs ++ a ∷ []) b ≡ (contains xs b || a == b)
contains-push [] a b = ground arith
contains-push (x ∷ xs) a b = ground (arith, contains-push xs a b)

pub Distinct-push :
    (xs : List ℕ) (a : ℕ) → contains xs a ≡ false → Distinct xs → Distinct (xs ++ a ∷ [])
Distinct-push [] a h d = (refl, tt)
Distinct-push (x ∷ xs) a h d =
    (ground (arith, contains-push xs a x), Distinct-push xs a (ground arith) d.1)

pub contains-append :
    (xs ys : List ℕ) (b : ℕ) → contains (xs ++ ys) b ≡ (contains xs b || contains ys b)
contains-append [] ys b = refl
contains-append (x ∷ xs) ys b = ground (arith, contains-append xs ys b)

pub Distinct-append :
    (xs ys : List ℕ)
    → Distinct xs
    → Distinct ys
    → ((a : ℕ) → contains ys a ≡ true → contains xs a ≡ false)
    → Distinct (xs ++ ys)
Distinct-append [] ys d e f = e
Distinct-append (x ∷ xs) ys d e f = (
  contains-append xs ys x ∙ ground (arith, d.0, f x),
  Distinct-append xs ys d.1 e (λ a c. ground (arith, f a c)),
)
