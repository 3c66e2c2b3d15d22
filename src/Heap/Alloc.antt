-- ===== src/Heap/Alloc.antt =====
-- Taking and giving back a slot of a class (kernel/src/heap.rs: `slab_alloc`, `new_slab`, the slab part
-- of `dealloc`).
use ignium.Base.{
  ℕ, zero, suc, ◌+◌, ◌-◌, ◌*◌, ◌/◌, ◌%◌, Bool, ◌||◌, not, Option, none, some, ◌==◌, ltb, leb,
  if◌then◌else◌, update,
}
use ignium.Abi.{page_size}
use ignium.Heap.{PageAllocator, expect, Run, done, spent, ◌>>=◌, slab_size, sentinel, Heap}
use ignium.Heap.Sweep.{sweep_empty_pages}

-- A write of the word at an address, if the address is not null.
unfoldable pub write : ℕ → ℕ → (ℕ → ℕ) → ℕ → ℕ
write a v word = if not (a == 0) then update word a v else word

-- The loop that links the slots of a page up to `end`: `prev` is the slot before `slot`, or null.
unfoldable pub link_slots : ℕ → ℕ → ℕ → ℕ → ℕ → (ℕ → ℕ) → Run (ℕ → ℕ)
unfolding write
link_slots zero size end prev slot word = spent
link_slots (suc fuel) size end prev slot word =
    let rest = link_slots fuel size end slot (slot + size) (write prev slot word) in
    if leb (slot + size) end then rest else done (write prev sentinel word)

-- No class has more slots in a page.
abbrev pub max_slots : ℕ
max_slots = 256

-- The first page of the chain from `page` on that has a free slot.
unfoldable pub first_free : {S : Type 0} → ℕ → ℕ → Heap S → Run (Option ℕ)
first_free zero page h = spent
first_free (suc fuel) page h =
    let rest = first_free fuel (h.next page) h in
    if page == 0
    then done none
    else if not (h.free_list page == sentinel)
    then done (some page)
    else rest

-- The first free slot of a page, taken from its free list.
unfoldable pub pop_slot : {S : Type 0} → ℕ → Heap S → ℕ × Heap S
pop_slot page h =
    let slot = h.free_list page in
    (slot, record h { free_list = update h.free_list page (h.word slot) })

unfoldable pub push_front : {S : Type 0} → ℕ → ℕ → Heap S → Heap S
push_front idx page h = record h {
  next = update h.next page (h.head idx);
  head = update h.head idx page;
}

module _ (m : PageAllocator) where
  -- The free list and the header of a page that the allocator has given out.
  unfoldable pub build_slab : ℕ → ℕ → Heap m.Store → Run (Heap m.Store)
  unfolding ◌>>=◌ slab_size link_slots
  build_slab idx page h =
      let size = slab_size idx in
      link_slots (suc max_slots) size (page + page_size) 0 (page + size) h.word >>= λ word.
      done (record h {
        word = word;
        next = update h.next page 0;
        free_list = update h.free_list page (page + size);
        class_of = update h.class_of page idx;
      })

  unfoldable pub grow : ℕ → Heap m.Store → Run (ℕ × Heap m.Store)
  unfolding ◌>>=◌ expect build_slab
  grow idx h =
      let got = m.alloc_pages 0 h.store in
      expect got.0 >>= λ page.
      build_slab idx page (record h { store = got.1 }) >>= λ h'. done (page, h')

  unfoldable pub new_slab : ℕ → ℕ → Heap m.Store → Run (ℕ × Heap m.Store)
  unfolding ◌>>=◌ sweep_empty_pages grow
  new_slab fuel idx h = sweep_empty_pages m fuel h >>= grow idx

  unfoldable pub take_from : ℕ → ℕ → Option ℕ → Heap m.Store → Run (ℕ × Heap m.Store)
  unfolding ◌>>=◌ pop_slot push_front new_slab
  take_from fuel idx (some page) h = done (pop_slot page h)
  take_from fuel idx none h =
      new_slab fuel idx h >>= λ fresh. done (pop_slot fresh.0 (push_front idx fresh.0 fresh.1))

  unfoldable pub slab_alloc : ℕ → ℕ → Heap m.Store → Run (ℕ × Heap m.Store)
  unfolding ◌>>=◌ first_free take_from
  slab_alloc fuel idx h = first_free fuel (h.head idx) h >>= λ found. take_from fuel idx found h

-- `ptr & !(PAGE_SIZE - 1)`
unfoldable pub page_of : ℕ → ℕ
page_of ptr = ptr / 4096 * 4096

unfoldable pub in_region : {S : Type 0} → ℕ → Heap S → Bool
in_region page h = not (ltb page h.base || leb h.bytes (page - h.base))

-- The checks of a slab pointer at `offset` in its page.
unfoldable pub is_slot : ℕ → ℕ → Bool
unfolding slab_size
is_slot idx offset = not (
    ltb offset (slab_size idx)
    || not (offset % slab_size idx == 0)
    || ltb page_size (offset + slab_size idx))

unfoldable pub push_slot : {S : Type 0} → ℕ → ℕ → Heap S → Heap S
push_slot page ptr h = record h {
  word = update h.word ptr (h.free_list page);
  free_list = update h.free_list page ptr;
}
