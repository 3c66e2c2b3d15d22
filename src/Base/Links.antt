-- ===== src/Base/Links.antt =====
-- Chains: a function that leads from one index to the next.
use Prim.Native.Nat.{ℕ}
use mathlib.Core.Path.{◌≡◌, sym, subst}
use mathlib.Core.Bool.{false}
use mathlib.Core.List.{List, [], ◌∷◌}
use native.Mathlib.Omega.{arith}
use ignium.Base.Tests.{◌==◌}
use ignium.Base.Lists.{update, contains}

-- From `start` the function `f` leads over the elements of the list to `end`.
abbrev pub Linked : (ℕ → ℕ) → ℕ → ℕ → List ℕ → Type 0
Linked f start end [] = start ≡ end
Linked f start end (x ∷ xs) = (start ≡ x) × (((x == end) ≡ false) × Linked f (f x) end xs)

-- A write elsewhere leaves a chain alone.
pub Linked-update :
    (f : ℕ → ℕ) (start end : ℕ) (xs : List ℕ) (a v : ℕ)
    → contains xs a ≡ false
    → Linked f start end xs
    → Linked (update f a v) start end xs
Linked-update f start end [] a v n h = h
Linked-update f start end (x ∷ xs) a v n h =
    let off : (a == x) ≡ false = ground (arith, n) in
    let same : update f a v x ≡ f x = ground (arith, off) in
    let rest = Linked-update f (f x) end xs a v (ground (arith, n)) h.1.1 in
    (h.0, (h.1.0, subst (λ s. Linked (update f a v) s end xs) (sym same) rest))
