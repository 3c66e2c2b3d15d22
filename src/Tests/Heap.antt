-- ===== src/Tests/Heap.antt =====
-- A heap with no pages and one with two pages, over the page allocator of Buddy with eight pages.
use ignium.Base.{
  ℕ, ◌+◌, ◌-◌, ◌≡◌, refl, sym, ap, ◌∙◌, subst, ◌⊎◌, true, false, ◌&&◌, ◌||◌, not, Option, none,
  some, [], ◌∷◌, ◌==◌, update, ltb, if◌then◌else◌, arith, inl, inr, Bool-cases,
}
use ignium.Heap.{init, at_boot, IsPage, Heap, Run, done, panic, sentinel, slab_size, classes}
use ignium.Heap.Pages.{buddy, alloc_pages, free_pages, alloc_pages-IsPage}
use ignium.Buddy.{Buddy, push, block_size}
use ignium.Buddy.Blocks.{
  free, accepts, merge, unlink, unlink_from, buddy_of, block_index, alloc_block, find_block, pop,
  split, block_addr,
}
use ignium.Tests.Buddy.{eight}
use ignium.Heap.Alloc.{slab_alloc, page_of, is_slot, in_region}
use ignium.Heap.Blocks.{dealloc, alloc, page_alloc}
use ignium.Heap.Sweep.{give_back, sweep_empty_pages}
use ignium.Heap.Large.{page_alloc-dealloc, Placed, Refused, page_alloc-Placed}
use ignium.Heap.Shape.{Shape, IsSlab, IsHeap, live}
use ignium.Heap.Taking.{Takes, slab_alloc-Takes}
use ignium.Heap.Giving.{dealloc-live}

-- The eight pages are free, and two of them are given out.
abbrev free_store : Buddy
unfolding push
free_store = push 0 3 eight

abbrev one_out : Buddy
unfolding push alloc_pages alloc_block find_block pop split block_addr block_size
one_out = (alloc_pages 0 free_store).1

abbrev two_out : Buddy
unfolding push alloc_pages alloc_block find_block pop split block_addr block_size
two_out = (alloc_pages 0 one_out).1

two_given :
    ((alloc_pages 0 free_store).0 ≡ some 0x81000000) × ((alloc_pages 0 one_out).0 ≡ some 0x81001000)
unfolding push alloc_pages alloc_block find_block pop split block_addr block_size
two_given = (refl, refl)

abbrev empty : Heap Buddy
empty = init 0x81000000 8 (at_boot free_store)

-- Two pages of the largest class: the slot of the first is in use, the slot of the second is free.
abbrev used : Heap Buddy
used = record {
  head = λ i. if i == 7 then 0x81000000 else 0;
  next = λ p. if p == 0x81000000 then 0x81001000 else 0;
  free_list = λ p. if p == 0x81001000 then 0x81001800 else sentinel;
  word = λ a. sentinel;
  class_of = λ p. if p == 0x81000000 || p == 0x81001000 then 7 else 255;
  base = 0x81000000;
  bytes = 32768;
  store = two_out;
}

abbrev two_pages : Shape
two_pages = record {
  pages = λ i. if i == 7 then 0x81000000 ∷ 0x81001000 ∷ [] else [];
  slots = λ p. if p == 0x81001000 then 0x81001800 ∷ [] else [];
}

used-IsHeap : IsHeap buddy two_pages used
unfolding page_of is_slot slab_size
used-IsHeap = record {
  chain = λ i l. elim (Bool-cases (i == 7)) [
    | inl seven ↦ rw seven (refl, (refl, (refl, (refl, refl))))
    | inr other ↦ rw other refl
  ];
  distinct = λ i l. elim (Bool-cases (i == 7)) [
    | inl seven ↦ rw seven (refl, (refl, tt))
    | inr other ↦ rw other tt
  ];
  listed = λ i l p. ground (arith, l);
  marked = λ p. ground arith;
  slabs = λ p l. elim (Bool-cases (p == 0x81001000)) [
    | inl second ↦
        let at : 0x81001000 ≡ p = ground (arith, second) in
        subst (IsSlab buddy two_pages used) at (record {
          page = (refl, (omega arith, omega arith));
          chain = (refl, (refl, refl));
          distinct = (refl, tt);
          placed = λ a c.
              let is : 0x81001800 ≡ a = ground (arith, c) in
              subst (λ x. (page_of x == 0x81001000 && is_slot 7 (x - 0x81001000)) ≡ true) is refl;
        })
    | inr other ↦
        let at : 0x81000000 ≡ p = ground (arith, l, other) in
        subst (IsSlab buddy two_pages used) at (record {
          page = (refl, (omega arith, omega arith));
          chain = refl;
          distinct = tt;
          placed = λ a c. ground (arith, c);
        })
  ];
}

-- The sweep gives back the second page.
abbrev swept : Heap Buddy
unfolding push free_pages free accepts merge block_index buddy_of unlink unlink_from alloc_pages
    alloc_block find_block pop split block_addr block_size
swept = record used {
  next = update used.next 0x81000000 0;
  class_of = update used.class_of 0x81001000 255;
  store = (free_pages 0x81001000 two_out).1;
}

used-swept : sweep_empty_pages buddy 3 used ≡ done swept
unfolding sweep_empty_pages free_pages free accepts merge block_index buddy_of unlink unlink_from
    alloc_pages alloc_block find_block pop split block_addr block_size push
used-swept = refl

given_again : (alloc_pages 0 swept.store).0 ≡ some 0x81001000
unfolding free_pages free accepts merge block_index buddy_of unlink unlink_from alloc_pages
    alloc_block find_block pop split block_addr block_size push
given_again = refl

heap_of : Run (Heap Buddy) → Heap Buddy
heap_of (done h) = h
heap_of r = used

value_of : Option ℕ → ℕ
value_of (some p) = p
value_of o = 0

used-IsPage :
    (h1 : Heap Buddy) (p : ℕ)
    → sweep_empty_pages buddy 3 used ≡ done h1
    → (alloc_pages 0 h1.store).0 ≡ some p
    → IsPage p × (ltb (h1.class_of p) classes ≡ false)
unfolding heap_of value_of swept free_pages free accepts merge block_index buddy_of unlink
    unlink_from alloc_block find_block pop split block_addr block_size push
used-IsPage h1 p e a =
    let same : swept ≡ h1 = ap heap_of (sym used-swept ∙ e) in
    let got : (alloc_pages 0 swept.store).0 ≡ some p =
      subst (λ h. (alloc_pages 0 h.store).0 ≡ some p) (sym same) a in
    let at : 0x81001000 ≡ p = ap value_of (sym given_again ∙ got) in
    (
      alloc_pages-IsPage 0 swept.store p refl (omega arith) (omega arith) got,
      subst (λ h. ltb (h.class_of p) classes ≡ false) same
          (subst (λ q. ltb (swept.class_of q) classes ≡ false) at refl),
    )

-- The class of 1024 bytes has no page: it gets the one that the sweep has given back.
slab_alloc-Takes_example : Takes buddy two_pages used 3 6 (slab_alloc buddy 3 6 used)
slab_alloc-Takes_example =
    slab_alloc-Takes buddy 3 6 (omega arith) two_pages used used-IsHeap (λ i. ground arith)
      used-IsPage

used_live : live two_pages used 0x81000800 ≡ true
unfolding live page_of is_slot
used_live = refl

used_inside : in_region (page_of 0x81000800) used ≡ true
unfolding in_region page_of
used_inside = refl

abbrev address : Run (ℕ × Heap Buddy) → Option ℕ
address (done r) = some r.0
address r = none

-- An object of 33 bytes stands in the first slot of a page of the class of 64 bytes.
alloc_33 : address (alloc buddy 1 33 8 empty) ≡ some (0x81000000 + 64)
unfolding alloc init at_boot alloc_pages find_block pop free_store block_addr split
alloc_33 = refl

-- An object of 1000 bytes stands in the first slot of the page that the sweep has given back.
alloc_1000 : address (alloc buddy 3 1000 8 used) ≡ some (0x81001000 + 1024)
unfolding alloc sweep_empty_pages free_pages free accepts merge block_index buddy_of unlink
    unlink_from alloc_pages alloc_block find_block pop split block_addr block_size push swept
alloc_1000 = refl

dealloc-live_example :
    (h' : Heap Buddy) × ((dealloc buddy 0x81000800 2000 used ≡ done h')
      × ((g' : Shape) × (IsHeap buddy g' h'
            × ((a : ℕ) → live g' h' a ≡ (live two_pages used a && not (a == 0x81000800))))))
dealloc-live_example =
    dealloc-live buddy two_pages used 0x81000800 used-IsHeap used_live 2000 refl used_inside

page_alloc-Placed_example :
    ((page_alloc buddy 2100 16 empty ≡ panic) × Refused buddy 2100 16 empty)
    ⊎ ((ptr : ℕ) × ((h' : Heap Buddy) × ((page_alloc buddy 2100 16 empty ≡ done (ptr, h'))
            × Placed buddy 2100 16 empty ptr h')))
page_alloc-Placed_example = page_alloc-Placed buddy 2100 16 empty (omega arith)

-- A large object stands sixteen bytes into its block.
alloc_2100 : address (alloc buddy 1 2100 16 empty) ≡ some (0x81000000 + 16)
unfolding alloc init at_boot alloc_pages find_block pop free_store block_addr split
alloc_2100 = refl

-- The heap after a large object.
abbrev with_object : Heap Buddy
with_object = record empty {
  store = (alloc_pages 0 empty.store).1;
  word = update empty.word 0x81000008 0x81000000;
}

object_alloc : page_alloc buddy 2100 16 empty ≡ done (0x81000010, with_object)
unfolding page_alloc init at_boot alloc_pages find_block pop free_store block_addr split
object_alloc = refl

object_inside : in_region (page_of 0x81000010) with_object ≡ true
unfolding in_region page_of init at_boot
object_inside = refl

page_alloc-dealloc_example :
    (order : ℕ) × ((block : ℕ) × ((alloc_pages order empty.store ≡ (some block, with_object.store))
        × (dealloc buddy 0x81000010 2100 with_object ≡ give_back buddy block with_object)))
unfolding init at_boot
page_alloc-dealloc_example =
    page_alloc-dealloc buddy 2100 16 empty 0x81000010 with_object (omega arith) refl object_alloc
      object_inside refl
