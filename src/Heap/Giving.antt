-- ===== src/Heap/Giving.antt =====
-- Giving back a slot (kernel/src/heap.rs: `dealloc`).
use ignium.Base.{
  ℕ, ◌-◌, ◌≡◌, ◌<◌, refl, sym, ap, subst, true, false, ◌&&◌, not, List, ◌∷◌, ◌==◌, update, contains,
  arith, inl, inr, Bool-cases,
}
use ignium.Base.Links.{Linked, Linked-update}
use ignium.Heap.{PageAllocator, done, Heap, classes, not_slab, sentinel}
use ignium.Heap.Alloc.{page_of, is_slot, push_slot, in_region}
use ignium.Heap.Blocks.{dealloc, dealloc_slab}
use ignium.Heap.Slots.{is_slot-bounds}
use ignium.Heap.Shape.{Shape, IsSlab, IsHeap, live, resized}

module _ (m : PageAllocator) (g : Shape) (h : Heap m.Store) (ptr : ℕ) (ok : IsHeap m g h)
    (used : live g h ptr ≡ true) where
  abbrev home : ℕ
  home = page_of ptr

  abbrev back : List ℕ
  back = ptr ∷ g.slots home

  known :
      (h.class_of home < classes)
      × ((is_slot (h.class_of home) (ptr - home) ≡ true) × (contains (g.slots home) ptr ≡ false))
  known = unfold live in ground (arith, used)

  -- A slot of another page is not this one.
  elsewhere :
      (p : ℕ) → h.class_of p < classes → (home == p) ≡ false → contains (g.slots p) ptr ≡ false
  elsewhere p l n = elim (Bool-cases (contains (g.slots p) ptr)) [
    | inl there ↦ absurd (ground (arith, (ok.slabs p l).placed ptr there, n))
    | inr out ↦ out
  ]

  not_end : (ptr == sentinel) ≡ false
  not_end =
      let at = (ok.slabs home known.0).page in
      let small = is_slot-bounds (h.class_of home) (ptr - home) known.0 known.1.0 in
      ground (arith, at, small)

  own : (home == home) ≡ true
  own = ground arith

  push_slot-IsSlab : IsSlab m (resized m g h home back) (push_slot home ptr h) home
  unfolding push_slot
  push_slot-IsSlab =
      let here = ok.slabs home known.0 in
      let tail =
        Linked-update h.word (h.free_list home) sentinel (g.slots home) ptr (h.free_list home)
          known.1.1 here.chain in
      let written : update h.word ptr (h.free_list home) ptr ≡ h.free_list home = ground arith in
      record {
        page = here.page;
        chain = rw own (
          refl,
          (
            not_end,
            subst (λ x. Linked (update h.word ptr (h.free_list home)) x sentinel (g.slots home))
                (sym written) tail,
          ),
        );
        distinct = rw own (known.1.1, here.distinct);
        placed = λ a c. elim (Bool-cases (ptr == a)) [
          | inl itself ↦
              let r : ptr ≡ a = ground (arith, itself) in
              let good : (page_of ptr == home && is_slot (h.class_of home) (ptr - home)) ≡ true =
                ground (arith, known.1.0) in
              subst (λ x. (page_of x == home && is_slot (h.class_of home) (x - home)) ≡ true) r good
          | inr another ↦ here.placed a (ground (arith, rw own at c, another))
        ];
      }

  push_slot-IsHeap : IsHeap m (resized m g h home back) (push_slot home ptr h)
  unfolding push_slot
  push_slot-IsHeap = record {
    chain = ok.chain;
    distinct = ok.distinct;
    listed = ok.listed;
    marked = ok.marked;
    slabs = λ p l.
        let slab = ok.slabs p l in
        elim (Bool-cases (home == p)) [
          | inr other ↦ record {
            page = slab.page;
            chain = rw other (
                Linked-update h.word (h.free_list p) sentinel (g.slots p) ptr (h.free_list home)
                  (elsewhere p l other) slab.chain);
            distinct = rw other slab.distinct;
            placed = λ a c. slab.placed a (rw other at c);
          }
          | inl same ↦
              let q : home ≡ p = ground (arith, same) in
              subst (λ x. IsSlab m (resized m g h home back) (push_slot home ptr h) x) q
                push_slot-IsSlab
        ];
  }

  push_slot-live :
      (a : ℕ)
      → live (resized m g h home back) (push_slot home ptr h) a ≡ (live g h a && not (a == ptr))
  unfolding live push_slot
  push_slot-live a = elim (Bool-cases (home == page_of a)) [
    | inl here ↦ let q : home ≡ page_of a = ground (arith, here) in rw (here, q) (ground arith)
    | inr other ↦
        let differs : (a == ptr) ≡ false = elim (Bool-cases (a == ptr)) [
          | inl same ↦
              let r : ptr ≡ a = ground (arith, same) in
              let again : page_of ptr ≡ page_of a = ap page_of r in
              absurd (ground (arith, again, other))
          | inr apart ↦ apart
        ] in
        rw (other, differs) (ground arith)
  ]

  -- In a heap in shape, giving back a slot in use whose page lies in the region, with a size
  -- other than 0, succeeds, and leaves a heap in shape in which that slot is not in use and
  -- every other address is in use or not as before.
  pub dealloc-live :
      (size : ℕ)
      → (size == 0) ≡ false
      → in_region (page_of ptr) h ≡ true
      → (h' : Heap m.Store) × ((dealloc m ptr size h ≡ done h')
          × ((g' : Shape) × (IsHeap m g' h'
                × ((a : ℕ) → live g' h' a ≡ (live g h a && not (a == ptr))))))
  unfolding dealloc dealloc_slab
  dealloc-live size some_size inside =
      let slab_page : (h.class_of home == not_slab) ≡ false =
        ground (arith, ok.marked home, known.0) in
      (
        push_slot home ptr h,
        (
          rw (some_size, inside, slab_page, known.1.0),
          (resized m g h home back, (push_slot-IsHeap, push_slot-live)),
        ),
      )
