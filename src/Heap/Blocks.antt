-- ===== src/Heap/Blocks.antt =====
-- Objects in blocks of their own, and the two entries of the heap (kernel/src/heap.rs: `page_alloc`,
-- `alloc`, `dealloc`). A layout is a size and a power of two to which the address is aligned.
use ignium.Base.{
  ℕ, zero, suc, ◌+◌, ◌-◌, ◌*◌, ◌/◌, not, Option, none, some, ◌==◌, ltb, leb, if◌then◌else◌, update,
}
use ignium.Buddy.{block_size}
use ignium.Buddy.Blocks.{max_order}
use ignium.Abi.{page_size}
use ignium.Heap.{
  PageAllocator, expect, Run, done, panic, ◌>>=◌, slab_size, not_slab, Heap, class_index,
}
use ignium.Heap.Sweep.{give_back}
use ignium.Heap.Alloc.{slab_alloc, page_of, in_region, is_slot, push_slot}

-- 2 ^ 64
abbrev pub usize_end : ℕ
usize_end = 18446744073709551616

-- `a.div_ceil(b)`
unfoldable pub div_ceil : ℕ → ℕ → ℕ
div_ceil a b = (a + (b - 1)) / b

-- `pages.next_power_of_two().trailing_zeros()`, or a number above `MAX_ORDER`.
unfoldable pub order_from : ℕ → ℕ → ℕ → ℕ
unfolding block_size
order_from zero order pages = order
order_from (suc left) order pages =
    let rest = order_from left (suc order) pages in
    if leb pages (block_size order) then order else rest

unfoldable pub order_of : ℕ → ℕ
unfolding order_from
order_of pages = order_from (suc max_order) 0 pages

-- `size + 8 + (align - 1)`, or none on overflow.
unfoldable pub needed : ℕ → ℕ → Option ℕ
needed size align =
    if ltb (size + 8) usize_end
    then if ltb (size + 8 + (align - 1)) usize_end then some (size + 8 + (align - 1)) else none
    else none

unfoldable pub align_in : ℕ → ℕ → ℕ
unfolding div_ceil
align_in block align = div_ceil (block + 8) align * align

module _ (m : PageAllocator) where
  -- The block, and its address in the word before the object.
  unfoldable pub place : ℕ → ℕ → Heap m.Store → Run (ℕ × Heap m.Store)
  unfolding ◌>>=◌ expect align_in
  place order align h =
      let got = m.alloc_pages order h.store in
      expect got.0 >>= λ block.
      let aligned = align_in block align in
      done (aligned, record h { store = got.1; word = update h.word (aligned - 8) block })

  unfoldable pub page_alloc : ℕ → ℕ → Heap m.Store → Run (ℕ × Heap m.Store)
  unfolding ◌>>=◌ expect needed div_ceil order_of place
  page_alloc size align h = expect (needed size align) >>= λ total.
      let order = order_of (div_ceil total page_size) in
      if ltb max_order order then panic else place order align h

  -- An object of no size has its alignment as its address.
  unfoldable pub alloc : ℕ → ℕ → ℕ → Heap m.Store → Run (ℕ × Heap m.Store)
  unfolding class_index slab_size slab_alloc page_alloc
  alloc fuel size align h =
      let block = page_alloc size align h in
      if size == 0 then done (align, h) else elim (class_index size) [
        | none ↦ block
        | some idx ↦ if leb align (slab_size idx) then slab_alloc m fuel idx h else block
      ]

  unfoldable pub dealloc_slab : ℕ → ℕ → Heap m.Store → Run (Heap m.Store)
  unfolding is_slot push_slot
  dealloc_slab page ptr h =
      if is_slot (h.class_of page) (ptr - page) then done (push_slot page ptr h) else panic

  unfoldable pub dealloc : ℕ → ℕ → Heap m.Store → Run (Heap m.Store)
  unfolding page_of in_region dealloc_slab give_back
  dealloc ptr size h =
      let page = page_of ptr in
      if size == 0
      then done h
      else if not (in_region page h)
      then panic
      else if not (h.class_of page == not_slab)
      then dealloc_slab page ptr h
      else give_back m (h.word (ptr - 8)) h
