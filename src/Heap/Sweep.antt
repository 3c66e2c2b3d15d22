-- ===== src/Heap/Sweep.antt =====
-- The sweep before a slab grows (kernel/src/heap.rs: `slab_page_empty`, `sweep_empty_pages`). A loop
-- over a chain of pages has fuel.
use ignium.Base.{ℕ, zero, suc, ◌-◌, ◌/◌, Bool, false, ◌==◌, if◌then◌else◌, update}
use ignium.Abi.{page_size}
use ignium.Heap.{
  PageAllocator, Run, done, panic, spent, ◌>>=◌, slab_size, classes, not_slab, sentinel, Heap,
}

unfoldable pub capacity : ℕ → ℕ
unfolding slab_size
capacity idx = (page_size - slab_size idx) / slab_size idx

-- Is the free list that starts at `slot` exactly `left` slots long?
unfoldable pub counts : (ℕ → ℕ) → ℕ → ℕ → Bool
counts word zero slot = slot == sentinel
counts word (suc left) slot =
    let rest = counts word left (word slot) in if slot == sentinel then false else rest

unfoldable pub slab_page_empty : {S : Type 0} → ℕ → ℕ → Heap S → Bool
unfolding counts capacity
slab_page_empty page idx h = counts h.word (capacity idx) (h.free_list page)

module _ (m : PageAllocator) where
  -- `mem::free_pages(page).expect(..)`
  unfoldable pub give_back : ℕ → Heap m.Store → Run (Heap m.Store)
  give_back page h =
      let freed = m.free_pages page h.store in
      if freed.0 then done (record h { store = freed.1 }) else panic

  -- Page `page` leaves the chain behind `prev`.
  unfoldable pub drop_page : ℕ → ℕ → Heap m.Store → Heap m.Store
  drop_page prev page h = record h {
    next = update h.next prev (h.next page);
    class_of = update h.class_of page not_slab;
  }

  -- The inner loop, from page `page` on, with the page `prev` before it.
  unfoldable pub sweep_chain : ℕ → ℕ → ℕ → ℕ → Heap m.Store → Run (Heap m.Store)
  unfolding ◌>>=◌ slab_page_empty give_back drop_page
  sweep_chain zero idx prev page h = spent
  sweep_chain (suc fuel) idx prev page h =
      let dropped =
        give_back page (drop_page prev page h) >>= sweep_chain fuel idx prev (h.next page) in
      let kept = sweep_chain fuel idx page (h.next page) h in
      if page == 0 then done h else if slab_page_empty page idx h then dropped else kept

  -- The outer loop, over the last `left` classes.
  unfoldable pub sweep_classes : ℕ → ℕ → Heap m.Store → Run (Heap m.Store)
  unfolding ◌>>=◌ sweep_chain
  sweep_classes fuel zero h = done h
  sweep_classes fuel (suc left) h =
      let idx = classes - suc left in
      let swept =
        sweep_chain fuel idx (h.head idx) (h.next (h.head idx)) h >>= sweep_classes fuel left in
      let skipped = sweep_classes fuel left h in if h.head idx == 0 then skipped else swept

  unfoldable pub sweep_empty_pages : ℕ → Heap m.Store → Run (Heap m.Store)
  unfolding sweep_classes
  sweep_empty_pages fuel h = sweep_classes fuel classes h
