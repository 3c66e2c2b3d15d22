-- ===== src/Base/Subsets.antt =====
-- Lists without repetitions, compared by the elements that they contain.
use Prim.Native.Nat.{ℕ, suc, ◌≤◌}
use mathlib.Core.Path.{◌≡◌, sym, subst}
use mathlib.Core.Bool.{true, false}
use mathlib.Core.List.{List, [], ◌∷◌}
use mathlib.Core.Logic.{inl, inr}
use native.Mathlib.Omega.{arith}
use ignium.Base.Tests.{◌==◌, if◌then◌else◌, Bool-cases}
use ignium.Base.Lists.{length, contains, Distinct}

-- Without the first `a`.
abbrev pub without : ℕ → List ℕ → List ℕ
without a [] = []
without a (x ∷ xs) = if x == a then xs else x ∷ without a xs

contains-without :
    (a b : ℕ) (xs : List ℕ)
    → (a == b) ≡ false
    → contains xs b ≡ true
    → contains (without a xs) b ≡ true
contains-without a b [] n h = h
contains-without a b (x ∷ xs) n h = ground (arith, contains-without a b xs n, n, h)

length-without :
    (a : ℕ) (xs : List ℕ) → contains xs a ≡ true → suc (length (without a xs)) ≡ length xs
length-without a [] h = ground (arith, h)
length-without a (x ∷ xs) h = ground (arith, length-without a xs, h)

length_le_of_contains :
    (xs ys : List ℕ)
    → Distinct xs
    → ((a : ℕ) → contains xs a ≡ true → contains ys a ≡ true)
    → length xs ≤ length ys
length_le_of_contains [] ys d h = omega arith
length_le_of_contains (x ∷ xs) ys d h =
    let inside : contains ys x ≡ true = h x (ground arith) in
    let rest = length_le_of_contains xs (without x ys) d.1 (λ a c. elim (Bool-cases (x == a)) [
      | inl same ↦
          let q : x ≡ a = ground (arith, same) in
          let again : contains xs x ≡ true = subst (λ b. contains xs b ≡ true) (sym q) c in
          ground (arith, again, d.0)
      | inr other ↦ contains-without x a ys other (h a (ground (arith, c)))
    ]) in
    omega (arith, rest, length-without x ys inside)

-- A list that is as long as one that contains it contains all of that.
pub contains_all :
    (xs ys : List ℕ) (b : ℕ)
    → Distinct xs
    → ((a : ℕ) → contains xs a ≡ true → contains ys a ≡ true)
    → length ys ≤ length xs
    → contains ys b ≡ true
    → contains xs b ≡ true
contains_all xs ys b d h l c = elim (Bool-cases (contains xs b)) [
  | inl there ↦ there
  | inr missing ↦
      let shorter = length_le_of_contains xs (without b ys) d (λ a k. elim (Bool-cases (b == a)) [
        | inl same ↦
            let q : b ≡ a = ground (arith, same) in
            let again : contains xs b ≡ true = subst (λ x. contains xs x ≡ true) (sym q) k in
            ground (arith, again, missing)
        | inr other ↦ contains-without b a ys other (h a k)
      ]) in
      absurd (omega (arith, shorter, length-without b ys c, l))
]
