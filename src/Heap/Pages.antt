-- ===== src/Heap/Pages.antt =====
-- The page allocator (kernel/src/mem.rs: `alloc_pages`, `free_pages`) as the heap calls it. A panic of the
-- allocator stands as no page, or as an error, at which the heap panics. The words of a page that is
-- given out stand in the heap alone.
use ignium.Base.{
  ℕ, zero, suc, ◌+◌, ◌-◌, ◌*◌, ◌%◌, ◌<◌, ◌≡◌, refl, Bool, false, Option, none, some, arith, inl,
  inr, Option-cases,
}
use ignium.Buddy.{Buddy, push, block_size}
use ignium.Buddy.Blocks.{alloc_block, find_block, pop, split, block_addr, max_order, free}
use ignium.Heap.{PageAllocator, IsPage}

unfoldable pub alloc_pages : ℕ → Buddy → Option ℕ × Buddy
unfolding alloc_block
alloc_pages order b = elim (alloc_block order b) [ none ↦ (none, b) | some r ↦ r ]

unfoldable pub free_pages : ℕ → Buddy → Bool × Buddy
unfolding free
free_pages addr b = elim (free addr b) [ none ↦ (false, b) | some r ↦ r ]

abbrev pub buddy : PageAllocator
buddy = record { Store = Buddy; alloc_pages = alloc_pages; free_pages = free_pages }

-- A search of the free lists finds a page in range and leaves the start of the memory.
find_block-bound :
    (n order idx o : ℕ) (b b' : Buddy)
    → find_block n order b ≡ some (some (idx, o), b')
    → (idx < b.page_count) × (b'.base ≡ b.base)
unfolding find_block pop
find_block-bound zero order idx o b b' h = ground (arith, h)
find_block-bound (suc n) order idx o b b' h =
    ground (arith, h, find_block-bound n (suc order) idx o b b')

split-base : (n idx order : ℕ) (b : Buddy) → (split n idx order b).base ≡ b.base
unfolding split push
split-base zero idx order b = refl
split-base (suc n) idx order b =
    split-base n idx order (push (idx + block_size (order + n)) (order + n) b)

-- With an aligned start of the memory, and its end below the half of the address space, every block that
-- is given out has the address of a page.
pub alloc_pages-IsPage :
    (order : ℕ) (b : Buddy) (p : ℕ)
    → b.base % 4096 ≡ 0
    → 0 < b.base
    → b.base + b.page_count * 4096 < 9223372036854775808
    → (alloc_pages order b).0 ≡ some p
    → IsPage p
unfolding alloc_pages alloc_block block_addr
alloc_pages-IsPage order b p aligned positive low h =
    elim (Option-cases (find_block (suc max_order - order) order b)) [
      | inl e ↦ absurd (ground (arith, h, e))
      | inr ((none, b1), e) ↦ absurd (ground (arith, h, e))
      | inr ((some (idx, o), b1), e) ↦
          let bound = find_block-bound (suc max_order - order) order idx o b b1 e in
          let same : p ≡ b.base + idx * 4096 =
            ground (arith, h, e, split-base (o - order) idx order b1, bound.1) in
          (
            omega (arith, same, aligned),
            (omega (arith, same, positive), omega (arith, same, low, bound.0)),
          )
    ]
