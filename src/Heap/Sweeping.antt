-- ===== src/Heap/Sweeping.antt =====
-- An empty page leaves its class (kernel/src/heap.rs: `sweep_empty_pages`).
use ignium.Base.{
  ℕ, zero, suc, ◌+◌, ◌-◌, ◌≡◌, ◌≤◌, ◌<◌, refl, sym, ap, ◌∙◌, subst, true, false, ◌||◌, List, [],
  ◌∷◌, ◌++◌, ◌==◌, if◌then◌else◌, update, length, contains, Distinct, arith, inl, inr, Bool-cases,
}
use ignium.Base.Subsets.{contains_all}
use ignium.Base.Links.{Linked, Linked-update}
use ignium.Heap.{PageAllocator, Heap, slab_size, classes, not_slab}
use ignium.Heap.Sweep.{capacity, slab_page_empty}
use ignium.Heap.Alloc.{page_of, is_slot}
use ignium.Heap.Linked.{counts-Linked, slots_from}
use ignium.Heap.Slots.{contains-page}
use ignium.Heap.Shape.{Shape, IsSlab, IsHeap, IsEmpty, live}

length-slots_from : (n step slot : ℕ) → length (slots_from n step slot) ≡ n
length-slots_from zero step slot = refl
length-slots_from (suc n) step slot = ap suc (length-slots_from n step (slot + step))

module _ (prev page : ℕ) (rest : List ℕ) where
  length-skip : (pre : List ℕ) → length (pre ++ prev ∷ rest) ≤ length (pre ++ prev ∷ page ∷ rest)
  length-skip [] = omega arith
  length-skip (x ∷ pre) = omega (arith, length-skip pre)

  contains-skip :
      (pre : List ℕ) (p : ℕ)
      → contains (pre ++ prev ∷ page ∷ rest) p ≡ (page == p || contains (pre ++ prev ∷ rest) p)
  contains-skip [] p = ground arith
  contains-skip (x ∷ pre) p = ground (arith, contains-skip pre p)

  Distinct-skip :
      (pre : List ℕ)
      → Distinct (pre ++ prev ∷ page ∷ rest)
      → Distinct (pre ++ prev ∷ rest)
        × ((contains (pre ++ prev ∷ rest) page ≡ false) × ((page == prev) ≡ false))
  Distinct-skip [] d =
      ((ground (arith, d.0), d.1.1), (ground (arith, d.0, d.1.0), ground (arith, d.0)))
  Distinct-skip (x ∷ pre) d =
      let r = Distinct-skip pre d.1 in
      (
        (ground (arith, d.0, contains-skip pre x), r.0),
        (ground (arith, d.0, contains-skip pre x, r.1.0), r.1.1),
      )

  not_behind : (pre : List ℕ) → Distinct (pre ++ prev ∷ rest) → contains rest prev ≡ false
  not_behind [] d = d.0
  not_behind (x ∷ pre) d = not_behind pre d.1

  prev_inside : (pre : List ℕ) → contains (pre ++ prev ∷ rest) prev ≡ true
  prev_inside [] = ground arith
  prev_inside (x ∷ pre) = ground (arith, prev_inside pre)

  Linked-skip :
      (f : ℕ → ℕ) (start end : ℕ) (pre : List ℕ)
      → Distinct (pre ++ prev ∷ page ∷ rest)
      → Linked f start end (pre ++ prev ∷ page ∷ rest)
      → Linked (update f prev (f page)) start end (pre ++ prev ∷ rest)
  Linked-skip f start end [] d c =
      let here : update f prev (f page) prev ≡ f page = ground arith in
      let tail = Linked-update f (f page) end rest prev (f page) (ground (arith, d.0)) c.1.1.1.1 in
      (c.0, (c.1.0, subst (λ s. Linked (update f prev (f page)) s end rest) (sym here) tail))
  Linked-skip f start end (x ∷ pre) d c =
      let apart : (prev == x) ≡ false =
        ground (arith, d.0, contains-skip pre x, prev_inside pre, contains-skip pre prev) in
      let here : update f prev (f page) x ≡ f x = ground (arith, apart) in
      let tail = Linked-skip f (f x) end pre d.1 c.1.1 in
      (
        c.0,
        (
          c.1.0,
          subst (λ s. Linked (update f prev (f page)) s end (pre ++ prev ∷ rest)) (sym here) tail,
        ),
      )

-- The allocator takes back the pages of a list, one after another.
abbrev pub Frees : (m : PageAllocator) → List ℕ → m.Store → m.Store → Type 0
Frees m [] s t = s ≡ t
Frees m (p ∷ ps) s t = ((m.free_pages p s).0 ≡ true) × Frees m ps (m.free_pages p s).1 t

-- A heap after part of the sweep: no slot in use has changed, no chain has grown, and the pages that
-- left their class, which were empty, are the ones that the allocator has taken back, each once.
pub record Swept (m : PageAllocator) (g : Shape) (h h' : Heap m.Store) : Type 0 where
  pub shape : Shape
  pub ok : IsHeap m shape h'
  pub same : (a : ℕ) → live shape h' a ≡ live g h a
  pub heads : h'.head ≡ h.head
  pub shorter : (i : ℕ) → length (shape.pages i) ≤ length (g.pages i)
  pub freed : List ℕ
  pub frees : Frees m freed h.store h'.store
  pub distinct : Distinct freed
  pub empty : (p : ℕ) → contains freed p ≡ true → IsEmpty g h p
  pub class_is : (p : ℕ) → h'.class_of p ≡ (if contains freed p then not_slab else h.class_of p)

module _ (m : PageAllocator) (g : Shape) (h : Heap m.Store) (idx prev page : ℕ) (pre rest : List ℕ)
    (ok : IsHeap m g h) (small : idx < classes) (is : g.pages idx ≡ pre ++ prev ∷ page ∷ rest)
    (free : slab_page_empty page idx h ≡ true) where
  abbrev dropped : Shape
  dropped = record g { pages = update g.pages idx (pre ++ prev ∷ rest) }

  skipped :
      Distinct (pre ++ prev ∷ rest)
      × ((contains (pre ++ prev ∷ rest) page ≡ false) × ((page == prev) ≡ false))
  skipped = Distinct-skip prev page rest pre (rw is at (ok.distinct idx small))

  both_listed : (contains (g.pages idx) page ≡ true) × (contains (g.pages idx) prev ≡ true)
  both_listed = rw is (
    ground (arith, contains-skip prev page rest pre page),
    ground (arith, contains-skip prev page rest pre prev, prev_inside prev page rest pre),
  )

  class_is : (h.class_of page ≡ idx) × (h.class_of prev ≡ idx)
  class_is = (
    ground (arith, ok.listed idx small page, both_listed),
    ground (arith, ok.listed idx small prev, both_listed),
  )

  pub slab : IsSlab m g h page
  slab = ok.slabs page (ground (arith, class_is, small))

  -- Every slot of the page is free.
  all_free :
      (a : ℕ) → page_of a ≡ page → is_slot idx (a - page) ≡ true → contains (g.slots page) a ≡ true
  all_free a here slot =
      let fresh = slots_from (capacity idx) (slab_size idx) (page + slab_size idx) in
      let counted : (length (g.slots page) == capacity idx) ≡ true =
        sym (counts-Linked h.word (capacity idx) (h.free_list page) (g.slots page) slab.chain)
        ∙ unfold slab_page_empty in free in
      let long : length fresh ≤ length (g.slots page) =
        ground (
          arith,
          counted,
          length-slots_from (capacity idx) (slab_size idx) (page + slab_size idx),
        ) in
      contains_all (g.slots page) fresh a slab.distinct
        (λ b c. contains-page idx page b small slab.page.0 ∙ (rw class_is.0 at (slab.placed b c)))
        long (contains-page idx page a small slab.page.0 ∙ ground (arith, here, slot))

  pub page-IsEmpty : IsEmpty g h page
  unfolding live
  page-IsEmpty =
      (ground (arith, class_is, small), λ a at. rw (at, class_is.0) (ground (arith, all_free a at)))

  module _ (s : m.Store) where
    abbrev pub left : Heap m.Store
    left = record h {
      next = update h.next prev (h.next page);
      class_of = update h.class_of page not_slab;
      store = s;
    }

    pub left_tail : Linked h.next (h.next page) 0 rest → Linked left.next (h.next page) 0 rest
    left_tail c =
        Linked-update h.next (h.next page) 0 rest prev (h.next page)
          (not_behind prev page rest pre skipped.0) c

    left_chain : (i : ℕ) → i < classes → Linked left.next (left.head i) 0 (dropped.pages i)
    left_chain i l = elim (Bool-cases (idx == i)) [
      | inl same ↦
          let q : idx ≡ i = ground (arith, same) in
          let whole : Linked h.next (h.head idx) 0 (pre ++ prev ∷ page ∷ rest) =
            rw is at (ok.chain idx small) in
          rw (same, sym q)
            (Linked-skip prev page rest h.next (h.head idx) 0 pre (rw is at (ok.distinct idx small))
              whole)
      | inr other ↦
          let out : contains (g.pages i) prev ≡ false =
            ok.listed i l prev ∙ ground (arith, class_is, other) in
          rw other
            (Linked-update h.next (h.head i) 0 (g.pages i) prev (h.next page) out (ok.chain i l))
    ]

    left_listed :
        (i : ℕ) → i < classes → (p : ℕ) → contains (dropped.pages i) p ≡ (left.class_of p == i)
    left_listed i l p =
        let before = contains-skip prev page rest pre p in
        let whole : contains (pre ++ prev ∷ page ∷ rest) p ≡ (h.class_of p == idx) =
          rw is at (ok.listed idx small p) in
        elim (Bool-cases (page == p)) [
          | inl here ↦
              let q : page ≡ p = ground (arith, here) in
              let out : contains (pre ++ prev ∷ rest) p ≡ false = rw q at skipped.1.0 in
              let was : h.class_of p ≡ idx = rw q at class_is.0 in
              let gone : contains (g.pages i) p ≡ (idx == i) =
                ok.listed i l p ∙ ap (λ (c : ℕ). c == i) was in
              ground (arith, here, out, gone, l)
          | inr elsewhere ↦ ground (arith, elsewhere, before, whole, ok.listed i l p)
        ]

    left-IsHeap : IsHeap m dropped left
    left-IsHeap = record {
      chain = left_chain;
      distinct = λ i l. elim (Bool-cases (idx == i)) [
        | inl same ↦ rw same skipped.0
        | inr other ↦ rw other (ok.distinct i l)
      ];
      listed = left_listed;
      marked = λ p. ground (arith, ok.marked p);
      slabs = λ p l. elim (Bool-cases (page == p)) [
        | inl here ↦ absurd (ground (arith, l, here))
        | inr elsewhere ↦
            let old = ok.slabs p (rw elsewhere at l) in
            record {
              page = old.page;
              chain = old.chain;
              distinct = old.distinct;
              placed = λ a c. rw elsewhere (old.placed a c);
            }
      ];
    }

    left-live : (a : ℕ) → live dropped left a ≡ live g h a
    unfolding live
    left-live a = elim (Bool-cases (page == page_of a)) [
      | inr elsewhere ↦ rw elsewhere refl
      | inl here ↦
          let q : page_of a ≡ page = ground (arith, here) in
          rw (here, q, class_is.0) (ground (arith, all_free a q))
    ]

    pub left-Swept :
        (m.free_pages page h.store).0 ≡ true
        → (m.free_pages page h.store).1 ≡ s
        → (t : Swept m g h left) × (t.shape.pages idx ≡ pre ++ prev ∷ rest)
    left-Swept accepted rest_is =
        let own : (idx == idx) ≡ true = ground arith in
        (
          record {
            shape = dropped;
            ok = left-IsHeap;
            same = left-live;
            heads = refl;
            shorter = λ i.
                ground (arith, length-skip prev page rest pre, ap (λ (l : List ℕ). length l) is);
            freed = page ∷ [];
            frees = (accepted, rest_is);
            distinct = (refl, tt);
            empty = λ p c. subst (IsEmpty g h) (ground (arith, c)) page-IsEmpty;
            class_is = λ p. ground arith;
          },
          rw own refl,
        )
