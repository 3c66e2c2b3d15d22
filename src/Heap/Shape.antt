-- ===== src/Heap/Shape.antt =====
-- The shape of the heap (kernel/src/heap.rs): the pages of each class and the free slots of each page
-- behind the chains in memory, and the slots that are in use.
use ignium.Base.{
  ℕ, ◌-◌, ◌≡◌, ◌<◌, refl, subst, Bool, true, false, ◌&&◌, ◌||◌, not, List, [], ◌∷◌, ◌==◌, ltb,
  update, contains, Distinct, arith, inl, inr, Bool-cases,
}
use ignium.Base.Links.{Linked}
use ignium.Heap.{init, at_boot, PageAllocator, Heap, classes, not_slab, sentinel, IsPage}
use ignium.Heap.Alloc.{page_of, is_slot, pop_slot}

pub record Shape : Type 0 where
  pub pages : ℕ → List ℕ
  pub slots : ℕ → List ℕ

-- A page of a class: its free slots are distinct slots of the page, in a chain.
pub record IsSlab (m : PageAllocator) (g : Shape) (h : Heap m.Store) (p : ℕ) : Type 0 where
  pub page : IsPage p
  pub chain : Linked h.word (h.free_list p) sentinel (g.slots p)
  pub distinct : Distinct (g.slots p)
  pub placed :
      (a : ℕ)
      → contains (g.slots p) a ≡ true
      → (page_of a == p && is_slot (h.class_of p) (a - p)) ≡ true

pub record IsHeap (m : PageAllocator) (g : Shape) (h : Heap m.Store) : Type 0 where
  pub chain : (i : ℕ) → i < classes → Linked h.next (h.head i) 0 (g.pages i)
  pub distinct : (i : ℕ) → i < classes → Distinct (g.pages i)
  -- The table of classes tells the chain of a page.
  pub listed : (i : ℕ) → i < classes → (p : ℕ) → contains (g.pages i) p ≡ (h.class_of p == i)
  pub marked : (p : ℕ) → (h.class_of p == not_slab) ≡ not (ltb (h.class_of p) classes)
  pub slabs : (p : ℕ) → h.class_of p < classes → IsSlab m g h p

-- The address is a slot that is not free.
unfoldable pub live : {S : Type 0} → Shape → Heap S → ℕ → Bool
unfolding page_of is_slot
live g h a =
    let p = page_of a in
    ltb (h.class_of p) classes && (is_slot (h.class_of p) (a - p) && not (contains (g.slots p) a))

module _ (m : PageAllocator) (g : Shape) (h : Heap m.Store) (page : ℕ) (rest : List ℕ) where
  -- `rest` are the free slots of `page` afterwards.
  abbrev pub resized : Shape
  resized = record g { slots = update g.slots page rest }

  module _ (s : ℕ) (ok : IsHeap m g h) (small : h.class_of page < classes)
      (is : g.slots page ≡ s ∷ rest) where
    pub pop_slot-IsHeap : IsHeap m resized (pop_slot page h).1
    unfolding pop_slot
    pop_slot-IsHeap = record {
      chain = ok.chain;
      distinct = ok.distinct;
      listed = ok.listed;
      marked = ok.marked;
      slabs = λ p l.
          let slab = ok.slabs p l in
          elim (Bool-cases (page == p)) [
            | inr other ↦ record {
              page = slab.page;
              chain = rw other slab.chain;
              distinct = rw other slab.distinct;
              placed = λ a c. slab.placed a (rw other at c);
            }
            | inl same ↦
                let q : page ≡ p = ground (arith, same) in
                let has : g.slots p ≡ s ∷ rest = subst (λ x. g.slots x ≡ s ∷ rest) q is in
                let chain : Linked h.word (h.free_list p) sentinel (s ∷ rest) =
                  rw has at slab.chain in
                let start : h.free_list page ≡ s = rw q chain.0 in
                let different : Distinct (s ∷ rest) = rw has at slab.distinct in
                record {
                  page = slab.page;
                  chain = rw (same, start) chain.1.1;
                  distinct = rw same different.1;
                  placed = λ a c. slab.placed a (rw has (ground (arith, rw same at c)));
                }
          ];
    }

    first_slot : contains (g.slots page) s ≡ true
    first_slot = rw is (ground arith)

    first_placed : (page_of s == page && is_slot (h.class_of page) (s - page)) ≡ true
    first_placed = (ok.slabs page small).placed s first_slot

    pub pop_slot-first : (pop_slot page h).0 ≡ s
    unfolding pop_slot
    pop_slot-first =
        let chain : Linked h.word (h.free_list page) sentinel (s ∷ rest) =
          rw is at (ok.slabs page small).chain in
        chain.0

    pub pop_slot-free : live g h s ≡ false
    unfolding live
    pop_slot-free =
        let at : page_of s ≡ page = ground (arith, first_placed) in
        rw (at, first_slot) (ground arith)

    pub pop_slot-live : (a : ℕ) → live resized (pop_slot page h).1 a ≡ (a == s || live g h a)
    unfolding live pop_slot
    pop_slot-live a =
        let different : Distinct (s ∷ rest) = rw is at (ok.slabs page small).distinct in
        elim (Bool-cases (a == s)) [
          | inl same ↦
              let q : s ≡ a = ground (arith, same) in
              let both : (page_of a == page && is_slot (h.class_of page) (a - page)) ≡ true =
                rw q at first_placed in
              let at : page_of a ≡ page = ground (arith, both) in
              let placed : is_slot (h.class_of page) (a - page) ≡ true = ground (arith, both) in
              let out : contains rest a ≡ false = rw q at different.0 in
              rw (at, same, placed) (ground (arith, small, out))
          | inr other ↦ elim (Bool-cases (page == page_of a)) [
            | inr elsewhere ↦ rw (other, elsewhere) refl
            | inl here ↦
                let q : page ≡ page_of a = ground (arith, here) in
                let has : g.slots (page_of a) ≡ s ∷ rest = subst (λ x. g.slots x ≡ s ∷ rest) q is in
                rw (other, here, has) (ground (arith, other))
          ]
        ]

-- A page of a class without a slot in use.
abbrev pub IsEmpty : {S : Type 0} → Shape → Heap S → ℕ → Type 0
IsEmpty g h p = (h.class_of p < classes) × ((a : ℕ) → page_of a ≡ p → live g h a ≡ false)

-- The heap after the boot is in shape, without a page.
pub init-IsHeap :
    (m : PageAllocator) (s : m.Store) (base page_count : ℕ)
    → IsHeap m (record { pages = λ i. []; slots = λ p. [] }) (init base page_count (at_boot s))
unfolding init at_boot
init-IsHeap m s base page_count = record {
  chain = λ i l. refl;
  distinct = λ i l. tt;
  listed = λ i l p. ground (arith, l);
  marked = λ p. refl;
  slabs = λ p l. absurd (omega (arith, l));
}
