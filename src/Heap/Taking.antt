-- ===== src/Heap/Taking.antt =====
-- Taking a slot (kernel/src/heap.rs: `slab_alloc`) over a heap in shape.
use ignium.Base.{
  ℕ, ◌-◌, ◌≡◌, ◌<◌, refl, sym, ◌∙◌, subst, true, false, ◌||◌, none, some, ltb, List, [], ◌∷◌, ◌==◌,
  length, contains, arith, ◌⊎◌, inl, inr, List-cases,
}
use ignium.Base.Links.{Linked}
use ignium.Heap.{PageAllocator, Run, done, panic, ◌>>=◌, Heap, classes, sentinel, IsPage}
use ignium.Heap.Sweep.{sweep_empty_pages}
use ignium.Heap.Alloc.{page_of, is_slot, pop_slot, push_front, new_slab, take_from, slab_alloc}
use ignium.Heap.Linked.{first_free-Linked}
use ignium.Heap.Shape.{
  Shape, IsHeap, live, resized, pop_slot-IsHeap, pop_slot-first, pop_slot-free, pop_slot-live,
}
use ignium.Heap.Growing.{grow-Added}
use ignium.Heap.Swept.{Stuck, sweep_empty_pages-Ends}
use ignium.Heap.Sweeping.{Swept}

-- A slot of class `idx` that was not in use is in use, and nothing else has changed.
pub record Taken (m : PageAllocator) (g : Shape) (h : Heap m.Store) (idx slot : ℕ)
    (h' : Heap m.Store) : Type 0 where
  pub shape : Shape
  pub ok : IsHeap m shape h'
  pub was_free : live g h slot ≡ false
  pub placed : is_slot idx (slot - page_of slot) ≡ true
  pub same : (a : ℕ) → live shape h' a ≡ (a == slot || live g h a)

module _ (m : PageAllocator) where
  pop_slot-Taken :
      (g : Shape) (h : Heap m.Store) (idx page s : ℕ) (rest : List ℕ)
      → IsHeap m g h
      → idx < classes
      → h.class_of page ≡ idx
      → g.slots page ≡ s ∷ rest
      → Taken m g h idx (pop_slot page h).0 (pop_slot page h).1
  pop_slot-Taken g h idx page s rest ok l c is =
      let small : h.class_of page < classes = rw c l in
      let first = pop_slot-first m g h page rest s ok small is in
      let here : contains (g.slots page) s ≡ true = rw is (ground arith) in
      let placed = (ok.slabs page small).placed s here in
      let at : page_of s ≡ page = ground (arith, placed) in
      let slot : is_slot idx (s - page) ≡ true =
        subst (λ i. is_slot i (s - page) ≡ true) c (ground (arith, placed)) in
      record {
        shape = resized m g h page rest;
        ok = pop_slot-IsHeap m g h page rest s ok small is;
        was_free = rw first (pop_slot-free m g h page rest s ok small is);
        placed = rw (first, at) slot;
        same = λ a. rw first (pop_slot-live m g h page rest s ok small is a);
      }

  -- A slot is taken, or the pages of the class are full, and the sweep is stuck or leaves an allocator that has no page.
  abbrev pub Takes : Shape → Heap m.Store → ℕ → ℕ → Run (ℕ × Heap m.Store) → Type 0
  Takes g h fuel idx r =
      ((r ≡ panic)
        × (((p : ℕ) → contains (g.pages idx) p ≡ true → g.slots p ≡ [])
            × (Stuck m g h
                ⊎ ((h' : Heap m.Store) × ((sweep_empty_pages m fuel h ≡ done h')
                      × (Swept m g h h' × ((m.alloc_pages 0 h'.store).0 ≡ none)))))))
      ⊎ ((slot : ℕ) × ((h' : Heap m.Store) × ((r ≡ done (slot, h')) × Taken m g h idx slot h')))

  has_slot :
      (g : Shape) (h : Heap m.Store) (page : ℕ)
      → Linked h.word (h.free_list page) sentinel (g.slots page)
      → (h.free_list page == sentinel) ≡ false
      → (s : ℕ) × ((rest : List ℕ) × (g.slots page ≡ s ∷ rest))
  has_slot g h page c n = elim (List-cases (g.slots page)) [
    | inl empty ↦
        let nothing : Linked h.word (h.free_list page) sentinel [] = rw empty at c in
        absurd (ground (arith, nothing, n))
    | inr found ↦ (found.0, (found.1, found.2))
  ]

  no_slot :
      (g : Shape) (h : Heap m.Store) (page : ℕ)
      → Linked h.word (h.free_list page) sentinel (g.slots page)
      → (h.free_list page == sentinel) ≡ true
      → g.slots page ≡ []
  no_slot g h page c e = elim (List-cases (g.slots page)) [
    | inl empty ↦ empty
    | inr found ↦
        let chain : Linked h.word (h.free_list page) sentinel (found.0 ∷ found.1) =
          rw found.2 at c in
        absurd (ground (arith, chain.0, chain.1.0, e))
  ]

  module _ (fuel idx : ℕ) (l : idx < classes) where
    take_from_fresh :
        (g : Shape) (h : Heap m.Store)
        → IsHeap m g h
        → ((i : ℕ) → length (g.pages i) < fuel)
        → ((h1 : Heap m.Store) (p : ℕ)
            → sweep_empty_pages m fuel h ≡ done h1
            → (m.alloc_pages 0 h1.store).0 ≡ some p
            → IsPage p × (ltb (h1.class_of p) classes ≡ false))
        → ((p : ℕ) → contains (g.pages idx) p ≡ true → g.slots p ≡ [])
        → Takes g h fuel idx (take_from m fuel idx none h)
    unfolding take_from new_slab ◌>>=◌
    take_from_fresh g h ok f new_page full = elim (sweep_empty_pages-Ends m fuel g h ok f) [
      | inr stuck ↦ inl (rw stuck.0 refl, (full, inl stuck.1))
      | inl swept ↦
          let s = swept.1.1 in
          elim (grow-Added m s.shape swept.0 idx (λ p. new_page swept.0 p swept.1.0) s.ok l) [
            | inl out ↦
                inl (rw (swept.1.0, out.0) refl, (full, inr (swept.0, (swept.1.0, (s, out.1)))))
            | inr grown ↦
                let page = grown.0 in
                let h2 = push_front idx page grown.1.0 in
                let a = grown.1.1.1 in
                let is : h2.class_of page ≡ idx = unfold push_front in a.class_is in
                let t = pop_slot-Taken a.shape h2 idx page a.slot a.rest a.ok l is a.has in
                inr (
                  (pop_slot page h2).0,
                  (
                    (pop_slot page h2).1,
                    (
                      rw (swept.1.0, grown.1.1.0) refl,
                      record {
                        shape = t.shape;
                        ok = t.ok;
                        was_free =
                            sym (s.same (pop_slot page h2).0)
                            ∙ (sym (a.same (pop_slot page h2).0) ∙ t.was_free);
                        placed = t.placed;
                        same = λ b. ground (arith, t.same b, a.same b, s.same b);
                      },
                    ),
                  ),
                )
          ]
    ]

    -- Over a heap in shape, with more fuel than the longest chain of pages, where a page
    -- that the page allocator gives after the sweep is an aligned address below the half of
    -- the address space and of no class of the heap, slab_alloc for a class either panics,
    -- and all pages of the class are full, and either the allocator has no page after the
    -- sweep or it refuses in the sweep an empty page that it has not yet been given back,
    -- or takes a slot of the class that was not in use, and leaves a heap in shape in which
    -- that slot is in use and every other address is in use or not as before, whatever
    -- pages the sweep has given back.
    pub slab_alloc-Takes :
        (g : Shape) (h : Heap m.Store)
        → IsHeap m g h
        → ((i : ℕ) → length (g.pages i) < fuel)
        → ((h1 : Heap m.Store) (p : ℕ)
            → sweep_empty_pages m fuel h ≡ done h1
            → (m.alloc_pages 0 h1.store).0 ≡ some p
            → IsPage p × (ltb (h1.class_of p) classes ≡ false))
        → Takes g h fuel idx (slab_alloc m fuel idx h)
    unfolding slab_alloc take_from ◌>>=◌
    slab_alloc-Takes g h ok f new_page =
        elim (first_free-Linked h fuel (h.head idx) (g.pages idx) (f idx) (ok.chain idx l)) [
          | inl none_free ↦ rw none_free.0 (
              take_from_fresh g h ok f new_page (λ p c.
                let is : h.class_of p ≡ idx = ground (arith, ok.listed idx l p, c) in
                no_slot g h p (ok.slabs p (rw is l)).chain (none_free.1 p c)))
          | inr found ↦
              let page = found.0 in
              let is : h.class_of page ≡ idx = ground (arith, ok.listed idx l page, found.1.1.0) in
              let slab = ok.slabs page (rw is l) in
              let slots = has_slot g h page slab.chain found.1.1.1 in
              inr (
                (pop_slot page h).0,
                (
                  (pop_slot page h).1,
                  (
                    rw found.1.0 refl,
                    pop_slot-Taken g h idx page slots.0 slots.1.0 ok l is slots.1.1,
                  ),
                ),
              )
        ]
