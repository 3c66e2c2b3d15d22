-- ===== src/Buddy/Chains.antt =====
-- The free lists of kernel/src/mem.rs as lists of pages, and the loop of `unlink`.
use ignium.Base.{
  ℕ, zero, suc, ◌+◌, ◌≤◌, ◌<◌, ◌≡◌, refl, arith, true, List, [], ◌∷◌, length, is_some,
}
use ignium.Base.Counting.{count, length_le}
use ignium.Abi.{usize_max}
use ignium.Buddy.{Buddy}
use ignium.Buddy.Blocks.{unlink_from, unlink}

-- The pages of a list from `cur` on.
abbrev pub IsChain : Buddy → ℕ → List ℕ → Type 0
IsChain b cur [] = cur ≡ usize_max
IsChain b cur (x ∷ l) =
    (cur ≡ x) × (x < b.page_count) × (x < usize_max) × IsChain b (b.first_word x) l

-- A list has no page past the last.
IsChain-count :
    (b : Buddy) (cur : ℕ) (l : List ℕ) (a : ℕ) → IsChain b cur l → b.page_count ≤ a → count a l ≡ 0
IsChain-count b cur [] a h g = refl
IsChain-count b cur (x ∷ l) a h g =
    ground (arith, h.0, h.1, g, IsChain-count b (b.first_word x) l a h.3 g)

unlink_from-is_some :
    (n target order prev cur : ℕ) (b : Buddy) (l : List ℕ)
    → IsChain b cur l
    → length l < n
    → is_some (unlink_from n target order prev cur b) ≡ true
unfolding unlink_from
unlink_from-is_some zero target order prev cur b l h g = ground (arith, g)
unlink_from-is_some (suc n) target order prev cur b [] h g = rw h refl
unlink_from-is_some (suc n) target order prev cur b (x ∷ l) h g =
    ground
      (arith, h.0, h.1, h.2, g, unlink_from-is_some n target order cur (b.first_word x) b l h.3)

-- Where a free list is a chain of pages in range without repetition, the loop of unlink ends
-- within page_count + 1 steps, without the panic for a page out of range, whether the block is
-- in the list or not.
pub unlink-is_some :
    (target order : ℕ) (b : Buddy) (l : List ℕ)
    → IsChain b (b.free_lists order) l
    → ((a : ℕ) → count a l ≤ 1)
    → is_some (unlink target order b) ≡ true
unfolding unlink
unlink-is_some target order b l h once =
    unlink_from-is_some (b.page_count + 1) target order usize_max (b.free_lists order) b l h (
      omega (
        arith,
        length_le b.page_count l once (λ a g. IsChain-count b (b.free_lists order) l a h g),
      ))
