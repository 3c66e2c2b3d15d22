-- ===== src/Heap/Growing.antt =====
-- A fresh page joins a class (kernel/src/heap.rs: `new_slab`, the link in `slab_alloc`).
use ignium.Base.{
  ℕ, zero, suc, ◌+◌, ◌-◌, ◌*◌, ◌/◌, ◌≡◌, ◌<◌, refl, sym, ◌∙◌, subst, true, false, ◌&&◌, none, some,
  List, ◌∷◌, ◌==◌, ltb, leb, update, contains, arith, ◌⊎◌, inl, inr, Bool-cases, Option-cases,
}
use ignium.Abi.{page_size}
use ignium.Base.Links.{Linked, Linked-update}
use ignium.Heap.{
  PageAllocator, expect, done, panic, ◌>>=◌, Heap, slab_size, classes, sentinel, IsPage,
}
use ignium.Heap.Sweep.{capacity}
use ignium.Heap.Alloc.{page_of, is_slot, push_front, build_slab, grow, max_slots}
use ignium.Heap.Linked.{Linked-agree, slots_from, first, IsLinked, link_slots-IsLinked}
use ignium.Heap.Slots.{contains-page, slots_from-Distinct, slab_size-IsFitting, page-Room}
use ignium.Heap.Shape.{Shape, IsSlab, IsHeap, live}

-- A page that is of no class, given out by the allocator, which leaves the store `s`.
module _ (m : PageAllocator) (g : Shape) (h : Heap m.Store) (idx page : ℕ) (s : m.Store)
    (ok : IsHeap m g h) (small : idx < classes) (no_class : ltb (h.class_of page) classes ≡ false)
    (is_page : IsPage page) where
  abbrev size : ℕ
  size = slab_size idx

  abbrev fresh_slots : List ℕ
  fresh_slots = slots_from (capacity idx) size (page + size)

  abbrev pub grown : Shape
  grown = record {
    pages = update g.pages idx (page ∷ g.pages idx);
    slots = update g.slots page fresh_slots;
  }

  unlisted : (i : ℕ) → i < classes → contains (g.pages i) page ≡ false
  unlisted i l = ok.listed i l page ∙ ground (arith, no_class, l)

  chain_from :
      (w : ℕ → ℕ) (n : ℕ)
      → 0 < n
      → Linked w (first n (page + size)) sentinel (slots_from n size (page + size))
      → Linked w (page + size) sentinel (slots_from n size (page + size))
  chain_from w zero l c = elim l [ ]
  chain_from w (suc n) l c = c

  -- A slot of another page lies outside this one.
  outside :
      (a p idx' : ℕ)
      → (page == p) ≡ false
      → IsPage p
      → (page_of a == p && is_slot idx' (a - p)) ≡ true
      → ((a == 0) ≡ false) × ((leb (page + size) a && ltb a (page + page_size)) ≡ false)
  unfolding page_of
  outside a p idx' other at placed =
      let c : a / 4096 * 4096 ≡ p = ground (arith, placed) in
      (ground (arith, c, at), ground (arith, c, is_page, other))

  module _ (w : ℕ → ℕ)
      (linked : IsLinked (capacity idx) size (page + page_size) 0 (page + size) h.word w) where
    -- The heap behind `build_slab` and `push_front`.
    abbrev built : Heap m.Store
    built = record h {
      store = s;
      word = w;
      next = update h.next page 0;
      free_list = update h.free_list page (page + size);
      class_of = update h.class_of page idx;
    }

    fresh_IsSlab : IsSlab m grown (push_front idx page built) page
    unfolding push_front
    fresh_IsSlab =
        let own : (page == page) ≡ true = ground arith in
        let several = (slab_size-IsFitting idx small).several in
        record {
          page = is_page;
          chain = rw own (chain_from w (capacity idx) several linked.chain);
          distinct = rw own (
              slots_from-Distinct (capacity idx) size (page + size)
                (slab_size-IsFitting idx small).some_size);
          placed = λ a c. rw own (sym (contains-page idx page a small is_page.0) ∙ (rw own at c));
        }

    old_IsSlab :
        (p : ℕ)
        → (page == p) ≡ false
        → h.class_of p < classes
        → IsSlab m grown (push_front idx page built) p
    unfolding push_front
    old_IsSlab p other l =
        let slab = ok.slabs p l in
        record {
          page = slab.page;
          chain = rw other (
              Linked-agree h.word w (h.free_list p) sentinel (g.slots p)
                (λ a c.
                  linked.frame a (outside a p (h.class_of p) other slab.page (slab.placed a c)).0
                    (outside a p (h.class_of p) other slab.page (slab.placed a c)).1)
                slab.chain);
          distinct = rw other slab.distinct;
          placed = λ a c. rw other (slab.placed a (rw other at c));
        }

    grown_chain :
        (i : ℕ)
        → i < classes
        → Linked
            (push_front idx page built).next
            ((push_front idx page built).head i)
            0
            (grown.pages i)
    unfolding push_front
    grown_chain i l =
        let kept_chain =
          Linked-update (update h.next page 0) (h.head i) 0 (g.pages i) page (h.head idx)
            (unlisted i l)
            (Linked-update h.next (h.head i) 0 (g.pages i) page 0 (unlisted i l) (ok.chain i l)) in
        elim (Bool-cases (idx == i)) [
          | inr other ↦ rw other kept_chain
          | inl same ↦
              let q : idx ≡ i = ground (arith, same) in
              let there : (page == 0) ≡ false = ground (arith, is_page) in
              let own : (page == page) ≡ true = ground arith in
              rw (same, own, q) (refl, (there, kept_chain))
        ]

    pub grown-IsHeap : IsHeap m grown (push_front idx page built)
    unfolding push_front
    grown-IsHeap = record {
      chain = grown_chain;
      distinct = λ i l. elim (Bool-cases (idx == i)) [
        | inl same ↦ rw same (unlisted idx small, ok.distinct idx small)
        | inr other ↦ rw other (ok.distinct i l)
      ];
      listed = λ i l p.
          ground (arith, ok.listed i l p, ok.listed idx small p, unlisted i l, no_class, l, small);
      marked = λ p. ground (arith, ok.marked p, small);
      slabs = λ p l. elim (Bool-cases (page == p)) [
        | inl same ↦
            let q : page ≡ p = ground (arith, same) in
            subst (λ x. IsSlab m grown (push_front idx page built) x) q fresh_IsSlab
        | inr other ↦ old_IsSlab p other (rw other at l)
      ];
    }

    pub grown-live : (a : ℕ) → live grown (push_front idx page built) a ≡ live g h a
    unfolding live push_front
    grown-live a = elim (Bool-cases (page == page_of a)) [
      | inr other ↦ rw other refl
      | inl here ↦
          let q : page ≡ page_of a = ground (arith, here) in
          rw (here, sym q, contains-page idx page a small is_page.0, no_class)
            (ground (arith, here))
    ]

first_two :
    (n step slot : ℕ) → 0 < n → (x : ℕ) × ((xs : List ℕ) × (slots_from n step slot ≡ x ∷ xs))
first_two zero step slot h = elim h [ ]
first_two (suc n) step slot h = (slot, (slots_from n step (slot + step), refl))

-- A page added to class `idx`, with its first free slot.
pub record Added (m : PageAllocator) (g : Shape) (h : Heap m.Store) (idx page : ℕ)
    (h' : Heap m.Store) : Type 0 where
  pub shape : Shape
  pub ok : IsHeap m shape (push_front idx page h')
  pub same : (a : ℕ) → live shape (push_front idx page h') a ≡ live g h a
  pub class_is : h'.class_of page ≡ idx
  pub slot : ℕ
  pub rest : List ℕ
  pub has : shape.slots page ≡ slot ∷ rest

pub grow-Added :
    (m : PageAllocator) (g : Shape) (h : Heap m.Store) (idx : ℕ)
    → ((p : ℕ)
        → (m.alloc_pages 0 h.store).0 ≡ some p
        → IsPage p × (ltb (h.class_of p) classes ≡ false))
    → IsHeap m g h
    → idx < classes
    → ((grow m idx h ≡ panic) × ((m.alloc_pages 0 h.store).0 ≡ none))
      ⊎ ((page : ℕ) × ((h' : Heap m.Store) × ((grow m idx h ≡ done (page, h'))
              × Added m g h idx page h')))
unfolding ◌>>=◌ expect grow
grow-Added m g h idx fresh ok small = elim (Option-cases (m.alloc_pages 0 h.store).0) [
  | inl out ↦ inl (rw (grow, out) refl, out)
  | inr got ↦
      let page = got.0 in
      let s = (m.alloc_pages 0 h.store).1 in
      let f = fresh page got.1 in
      let fit = slab_size-IsFitting idx small in
      let linked =
        link_slots-IsLinked (capacity idx) (suc max_slots) (slab_size idx) (page + page_size) 0
          (page + slab_size idx) h.word (omega (arith, fit.few)) fit.some_size (omega (arith, f.0))
          (omega (arith, fit.some_size)) (page-Room idx page small) in
      let w = linked.0 in
      let own : (page == page) ≡ true = ground arith in
      let two = first_two (capacity idx) (slab_size idx) (page + slab_size idx) fit.several in
      inr (
        page,
        (
          built m g h idx page s ok small f.1 f.0 w linked.1.1,
          (
            rw (grow, got.1, build_slab, linked.1.0) refl,
            record {
              shape = grown m g h idx page s ok small f.1 f.0;
              ok = grown-IsHeap m g h idx page s ok small f.1 f.0 w linked.1.1;
              same = grown-live m g h idx page s ok small f.1 f.0 w linked.1.1;
              class_is = rw own refl;
              slot = two.0;
              rest = two.1.0;
              has = rw own two.1.1;
            },
          ),
        ),
      )
]
