-- ===== src/Base/Counting.antt =====
-- How often a number stands in a list, what a test keeps of a list, and how long a list without
-- repetitions can be.
use Prim.Native.Nat.{ℕ, zero, suc, ◌+◌, ◌≤◌}
use mathlib.Core.Path.{◌≡◌, refl, ap}
use mathlib.Core.Bool.{Bool, true, false, not}
use mathlib.Core.List.{List, [], ◌∷◌, ◌++◌}
use mathlib.Core.Logic.{inl, inr}
use native.Mathlib.Omega.{arith}
use ignium.Base.Tests.{◌==◌, if◌then◌else◌, Bool-cases}
use ignium.Base.Lists.{length}

abbrev pub count : ℕ → List ℕ → ℕ
count a [] = 0
count a (x ∷ xs) = (if x == a then 1 else 0) + count a xs

-- `retain`
abbrev pub keep : (ℕ → Bool) → List ℕ → List ℕ
keep p [] = []
keep p (x ∷ xs) = if p x then x ∷ keep p xs else keep p xs

pub count-append : (a : ℕ) (xs ys : List ℕ) → count a (xs ++ ys) ≡ count a xs + count a ys
count-append a [] ys = omega arith
count-append a (x ∷ xs) ys = ground (arith, count-append a xs ys)

pub count-keep :
    (p : ℕ → Bool) (a : ℕ) (xs : List ℕ) → count a (keep p xs) ≡ (if p a then count a xs else 0)
count-keep p a [] = ground arith
count-keep p a (x ∷ xs) = elim (Bool-cases (x == a)) [
  | inl e ↦ let q : x ≡ a = ground (arith, e) in ground (arith, e, ap p q, count-keep p a xs)
  | inr e ↦ ground (arith, e, count-keep p a xs)
]

length-split : (m : ℕ) (xs : List ℕ) → length xs ≡ length (keep (λ x. not (x == m)) xs) + count m xs
length-split m [] = refl
length-split m (x ∷ xs) = ground (arith, length-split m xs)

-- A list of numbers below `n` in which none stands twice has at most `n` elements.
pub length_le :
    (n : ℕ) (xs : List ℕ)
    → ((a : ℕ) → count a xs ≤ 1)
    → ((a : ℕ) → n ≤ a → count a xs ≡ 0)
    → length xs ≤ n
length_le zero [] h g = omega arith
length_le zero (x ∷ xs) h g = ground (arith, g x)
length_le (suc n) xs h g =
    let p : ℕ → Bool = λ x. not (x == n) in
    let shorter =
      length_le n (keep p xs) (λ a. ground (arith, count-keep p a xs, h a))
        (λ a b. ground (arith, count-keep p a xs, g a)) in
    omega (arith, length-split n xs, h n, shorter)

-- Numbers that a test tells apart
pub apart : (p : ℕ → Bool) (a b : ℕ) → p a ≡ true → p b ≡ false → (a == b) ≡ false
apart p a b h g = elim (Bool-cases (a == b)) [
  | inl e ↦ let same : a ≡ b = ground (arith, e) in ground (arith, ap p same, h, g)
  | inr e ↦ e
]
