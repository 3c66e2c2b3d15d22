-- ===== src/Heap/Large.antt =====
-- Objects in blocks of their own (kernel/src/heap.rs: `page_alloc`): where they stand in the block.
use native.Mathlib.Nat.{div-add-mod', mod-lt, mul-mod_left}
use ignium.Base.{
  ℕ, zero, suc, ◌+◌, ◌-◌, ◌*◌, ◌%◌, ◌≡◌, ◌≤◌, ◌<◌, refl, sym, ap, subst, ◌∙◌, true, false, none,
  some, ◌==◌, ltb, leb, update, arith, ◌⊎◌, inl, inr, Bool-cases, Option-cases, ◌≢◌,
}
use ignium.Buddy.{block_size}
use ignium.Buddy.Blocks.{max_order}
use ignium.Abi.{page_size}
use ignium.Heap.{PageAllocator, Run, not_slab, done, panic, spent, ◌>>=◌, expect, Heap}
use ignium.Heap.Sweep.{give_back}
use ignium.Heap.Alloc.{page_of, in_region}
use ignium.Heap.Blocks.{
  dealloc, div_ceil, order_from, order_of, needed, align_in, place, page_alloc,
}

div_ceil-bounds : (a b : ℕ) → 0 < b → (a ≤ div_ceil a b * b) × (div_ceil a b * b ≤ a + (b - 1))
unfolding div_ceil
div_ceil-bounds a b h =
    let n = a + (b - 1) in
    (omega (arith, div-add-mod' n b, mod-lt n h, h), omega (arith, div-add-mod' n b))

-- The order found is large enough, or there is none up to `MAX_ORDER`.
order_from-fits :
    (left order pages : ℕ)
    → (pages ≤ block_size (order_from left order pages))
      ⊎ ((order_from left order pages ≡ order + left)
          × ((i : ℕ) → order ≤ i → i < order + left → block_size i < pages))
unfolding order_from
order_from-fits zero order pages = inr (omega arith, λ i l h. absurd (omega (arith, l, h)))
order_from-fits (suc left) order pages = elim (Bool-cases (leb pages (block_size order))) [
  | inl fits ↦ inl (rw fits (ground (arith, fits)))
  | inr small ↦ elim (order_from-fits left (suc order) pages) [
    | inl found ↦ inl (rw small found)
    | inr too_large ↦ inr (
      rw small (omega (arith, too_large.0)),
      λ i l h. elim (Bool-cases (i == order)) [
        | inl here ↦
            let q : order ≡ i = ground (arith, here) in
            let first : block_size order < pages = ground (arith, small) in rw q at first
        | inr later ↦ too_large.1 i (ground (arith, l, later)) (omega (arith, h))
      ],
    )
  ]
]

order_of-fits :
    (pages : ℕ) → ltb max_order (order_of pages) ≡ false → pages ≤ block_size (order_of pages)
unfolding order_of
order_of-fits pages h = elim (order_from-fits (suc max_order) 0 pages) [
  | inl fits ↦ fits
  | inr large ↦ absurd (ground (arith, h, large.0))
]

order_of-large : (pages : ℕ) → ltb max_order (order_of pages) ≡ true → 4096 < pages
order_of-large pages h = elim (Bool-cases (leb pages 4096)) [
  | inr large ↦ ground (arith, large)
  | inl small ↦ absurd (unfold order_of order_from block_size in ground (arith, h, small))
]

-- The object stands in the block of the order, aligned, behind the address of the block.
pub record Placed (m : PageAllocator) (size align : ℕ) (h : Heap m.Store) (ptr : ℕ)
    (h' : Heap m.Store) : Type 0 where
  pub order : ℕ
  pub block : ℕ
  pub order_le : order ≤ max_order
  pub given : m.alloc_pages order h.store ≡ (some block, h'.store)
  pub aligned : ptr % align ≡ 0
  pub behind : block + 8 ≤ ptr
  pub inside : ptr + size ≤ block + page_size * block_size order
  pub recorded : h'.word (ptr - 8) ≡ block

-- The request is above 16 MB, or the allocator has no block of the order that it needs.
abbrev pub Refused : (m : PageAllocator) → ℕ → ℕ → Heap m.Store → Type 0
Refused m size align h =
    (16777216 < size + 8 + (align - 1))
    ⊎ ((m.alloc_pages (order_of (div_ceil (size + 8 + (align - 1)) page_size)) h.store).0 ≡ none)

module _ (m : PageAllocator) (size align : ℕ) (h : Heap m.Store) (some_align : 0 < align) where
  -- The heap behind `place`.
  abbrev with_block : ℕ → ℕ → Heap m.Store
  with_block order block = record h {
    store = (m.alloc_pages order h.store).1;
    word = update h.word (align_in block align - 8) block;
  }

  place-Placed :
      (order block : ℕ)
      → (m.alloc_pages order h.store).0 ≡ some block
      → ltb max_order order ≡ false
      → size + 8 + (align - 1) ≤ page_size * block_size order
      → Placed m size align h (align_in block align) (with_block order block)
  unfolding align_in
  place-Placed order block got low total =
      let b = div_ceil-bounds (block + 8) align some_align in
      record {
        order = order;
        block = block;
        order_le = ground (arith, low);
        given = ap (λ o. (o, (m.alloc_pages order h.store).1)) got;
        aligned = mul-mod_left (div_ceil (block + 8) align) align;
        behind = b.0;
        inside = omega (arith, b.1, total, some_align);
        recorded = ground arith;
      }

  -- For a positive alignment, page_alloc, which requests size + 8 + align - 1 bytes, either
  -- panics, and the request is above 16 MB or the allocator has no block of the order that it
  -- needs, or returns an aligned address in the block that the allocator gave, at least eight
  -- bytes behind its start, with the whole size before its end, and the address of the block
  -- in the word before the object.
  pub page_alloc-Placed :
      ((page_alloc m size align h ≡ panic) × Refused m size align h)
      ⊎ ((ptr : ℕ) × ((h' : Heap m.Store) × ((page_alloc m size align h ≡ done (ptr, h'))
              × Placed m size align h ptr h')))
  unfolding page_alloc place ◌>>=◌ expect
  page_alloc-Placed =
      let total = size + 8 + (align - 1) in
      let pages = div_ceil total page_size in
      let order = order_of pages in
      let rounded = div_ceil-bounds total page_size (omega arith) in
      elim (Option-cases (needed size align)) [
        | inl overflow ↦ inl (rw overflow refl, inl (unfold needed in ground (arith, overflow)))
        | inr fits ↦
            let same : fits.0 ≡ total = unfold needed in ground (arith, fits.1) in
            let is : needed size align ≡ some total = fits.1 ∙ ap (λ n. some n) same in
            elim (Bool-cases (ltb max_order order)) [
              | inl high ↦
                  inl
                    (rw (is, high) refl, inl (omega (arith, order_of-large pages high, rounded.1)))
              | inr low ↦ elim (Option-cases (m.alloc_pages order h.store).0) [
                | inl out ↦ inl (rw (is, low, out) refl, inr out)
                | inr got ↦
                    let room = order_of-fits pages low in
                    inr (
                      align_in got.0 align,
                      (
                        with_block order got.0,
                        (
                          rw (is, low, got.1) refl,
                          place-Placed order got.0 got.1 low (omega (arith, rounded.0, room)),
                        ),
                      ),
                    )
              ]
            ]
      ]

abbrev result_or : {A : Type 0} → A → Run A → A
result_or a (done b) = b
result_or a panic = a
result_or a spent = a

panic≢done : {A : Type 0} {a : A} → panic ≢ done a
panic≢done h = cc

-- For a positive alignment and a size other than 0, when page_alloc has returned an object
-- whose page lies in the region and is of no class, dealloc of it gives the page allocator the
-- very block that it had given for the object, of whatever order, and does nothing else.
pub page_alloc-dealloc :
    (m : PageAllocator) (size align : ℕ) (h : Heap m.Store) (ptr : ℕ) (h' : Heap m.Store)
    → 0 < align
    → (size == 0) ≡ false
    → page_alloc m size align h ≡ done (ptr, h')
    → in_region (page_of ptr) h' ≡ true
    → (h'.class_of (page_of ptr) == not_slab) ≡ true
    → (order : ℕ) × ((block : ℕ) × ((m.alloc_pages order h.store ≡ (some block, h'.store))
          × (dealloc m ptr size h' ≡ give_back m block h')))
unfolding dealloc
page_alloc-dealloc m size align h ptr h' a n e inside large =
    elim (page_alloc-Placed m size align h a) [
      | inl refused ↦ elim (panic≢done (sym refused.0 ∙ e)) [ ]
      | inr placed ↦
          let same : (placed.0, placed.1.0) ≡ (ptr, h') =
            ap (result_or (ptr, h')) (sym placed.1.1.0 ∙ e) in
          let p : Placed m size align h ptr h' =
            subst (λ (r : ℕ × Heap m.Store). Placed m size align h r.0 r.1) same placed.1.1.1 in
          (p.order, (p.block, (p.given, rw (n, inside, large, p.recorded) refl)))
    ]
