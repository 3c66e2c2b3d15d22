-- ===== src/Buddy/Carve.antt =====
-- What `carve` of kernel/src/mem.rs does with one reserved interval.
use ignium.Buddy.Listed.{Listed, IsFree, block_size-suc, block_size_pos, wider, widen, push-Listed}
use ignium.Base.{
  ℕ, zero, suc, ◌+◌, ◌≤◌, ◌<◌, ◌≡◌, ◌≢◌, refl, ap, ◌∙◌, false, Option, none, some, [], ◌∷◌, update,
  arith, ◌⊎◌, inl, inr, Option-cases,
}
use ignium.Buddy.{Buddy, push, scan, carve_block, carve, block_size}

none≢some : {b : Buddy} → none ≢ some b
none≢some h = cc h

le_cases : (m n : ℕ) → (m ≤ n) ⊎ (n < m)
le_cases m n = ground arith

module _ (rs re : ℕ) where
  -- With one reserved interval, a block is left alone beyond the memory, is carved in halves, or is
  -- pushed on a free list.
  carve_block_cases :
      (idx order : ℕ) (b b' : Buddy) (halves : Option Buddy)
      → carve_block idx order ((rs, re) ∷ []) b halves ≡ some b'
      → ((b.real_count ≤ idx) × (b' ≡ b))
        ⊎ ((halves ≡ some b') ⊎ ((idx + block_size order ≤ b.real_count) × (b' ≡ push idx order b)))
  unfolding carve_block scan
  carve_block_cases idx order b b' halves h = ground (arith, h)

  -- What a carve keeps: the size of the memory and the blocks outside of its own.
  record Framed (idx order : ℕ) (b b' : Buddy) : Type 0 where
    count : b'.real_count ≡ b.real_count
    outside : (i : ℕ) → (i < idx) ⊎ (idx + block_size order ≤ i) → b'.meta i ≡ b.meta i

  Framed-push : (idx order : ℕ) (b b' : Buddy) → b' ≡ push idx order b → Framed idx order b b'
  unfolding push
  Framed-push idx order b b' e = record {
    count = ap (λ x. x.real_count) e;
    outside = λ i h. ap (λ x. x.meta i) e ∙ apart i h;
  }
    where
      apart :
          (i : ℕ)
          → (i < idx) ⊎ (idx + block_size order ≤ i)
          → update b.meta idx (record { order = order; used = false }) i ≡ b.meta i
      apart i h = ground (arith, h, block_size_pos order)

  both_halves :
      (order idx : ℕ) (b b' : Buddy) (first : Option Buddy)
      → (elim first [
        | none ↦ none
        | some b1 ↦ carve order (idx + block_size order) ((rs, re) ∷ []) b1
      ])
        ≡ some b'
      → (b1 : Buddy) × (first ≡ some b1)
        × (carve order (idx + block_size order) ((rs, re) ∷ []) b1 ≡ some b')
  both_halves order idx b b' none h = elim (none≢some h) [ ]
  both_halves order idx b b' (some b1) h = (b1, refl, h)

  carve-Framed :
      (order idx : ℕ) (b b' : Buddy)
      → carve order idx ((rs, re) ∷ []) b ≡ some b'
      → Framed idx order b b'
  unfolding carve
  carve-Framed zero idx b b' h = elim (carve_block_cases idx 0 b b' none h) [
    | inl (far, e) ↦ record {
      count = ap (λ x. x.real_count) e;
      outside = λ i g. ap (λ x. x.meta i) e;
    }
    | inr (inl e) ↦ elim (none≢some e) [ ]
    | inr (inr (room, e)) ↦ Framed-push idx 0 b b' e
  ]
  carve-Framed (suc order) idx b b' h = elim (carve_block_cases idx (suc order) b b' _ h) [
    | inl (far, e) ↦ record {
      count = ap (λ x. x.real_count) e;
      outside = λ i g. ap (λ x. x.meta i) e;
    }
    | inr (inl e) ↦
        let (b1, f, g) = both_halves order idx b b' _ e in
        let left = carve-Framed order idx b b1 f in
        let right = carve-Framed order (idx + block_size order) b1 b' g in
        record {
          count = right.count ∙ left.count;
          outside = λ i o.
              right.outside i (ground (arith, o, block_size-suc order))
              ∙ left.outside i (ground (arith, o, block_size-suc order));
        }
    | inr (inr (room, e)) ↦ Framed-push idx (suc order) b b' e
  ]

  -- A carve to the right of a listed block leaves it listed.
  carve-Listed :
      (order idx head o : ℕ) (b b' : Buddy)
      → carve order idx ((rs, re) ∷ []) b ≡ some b'
      → head < idx
      → Listed b idx head o
      → Listed b' (idx + block_size order) head o
  unfolding carve
  carve-Listed zero idx head o b b' h g l = elim (carve_block_cases idx 0 b b' none h) [
    | inl (far, e) ↦ rw e (wider (omega arith) l)
    | inr (inl e) ↦ elim (none≢some e) [ ]
    | inr (inr (room, e)) ↦
        rw e (push-Listed idx 0 (idx + block_size 0) head o b g (omega (arith, block_size_pos 0)) l)
  ]
  carve-Listed (suc order) idx head o b b' h g l =
      let wide = block_size-suc order in
      elim (carve_block_cases idx (suc order) b b' _ h) [
        | inl (far, e) ↦ rw e (wider (omega arith) l)
        | inr (inl e) ↦
            let (b1, f, k) = both_halves order idx b b' _ e in
            let left = carve-Listed order idx head o b b1 f g l in
            wider (omega (arith, wide))
              (carve-Listed order (idx + block_size order) head o b1 b' k (omega (arith, g)) left)
        | inr (inr (room, e)) ↦ rw e (
            push-Listed idx (suc order) (idx + block_size (suc order)) head o b g
              (omega (arith, block_size_pos (suc order))) l)
      ]

  pushed-IsFree :
      (idx order page : ℕ) (b b' : Buddy)
      → idx + block_size order ≤ b.real_count
      → b' ≡ push idx order b
      → idx ≤ page
      → page < idx + block_size order
      → IsFree b' idx (idx + block_size order) page
  unfolding push
  pushed-IsFree idx order page b b' room e lo hi = record {
    head = idx;
    order = order;
    starts = omega arith;
    before = lo;
    inside = hi;
    real = ground (arith, room, ap (λ x. x.real_count) e);
    free = ap (λ x. x.meta idx) e ∙ at_head;
    listed =
        rw e (record { earlier = []; links = at_start; below = λ i c. absurd (ground (arith, c)) });
  }
    where
      at_head :
          update b.meta idx (record { order = order; used = false }) idx
          ≡ record { order = order; used = false }
      at_head = ground arith

      at_start : update b.free_lists order idx order ≡ idx
      at_start = ground arith

  carve_frees :
      (order idx page : ℕ) (b b' : Buddy)
      → carve order idx ((rs, re) ∷ []) b ≡ some b'
      → idx ≤ page
      → page < idx + block_size order
      → page < b.real_count
      → IsFree b' idx (idx + block_size order) page
  unfolding carve
  carve_frees zero idx page b b' h lo hi real = elim (carve_block_cases idx 0 b b' none h) [
    | inl (far, e) ↦ ground (arith, far, lo, real)
    | inr (inl e) ↦ elim (none≢some e) [ ]
    | inr (inr (room, e)) ↦ pushed-IsFree idx 0 page b b' room e lo hi
  ]
  carve_frees (suc order) idx page b b' h lo hi real =
      elim (carve_block_cases idx (suc order) b b' _ h) [
        | inl (far, e) ↦ ground (arith, far, lo, real)
        | inr (inl e) ↦
            let (b1, f, g) = both_halves order idx b b' _ e in
            let left = carve-Framed order idx b b1 f in
            let right = carve-Framed order (idx + block_size order) b1 b' g in
            let wide = block_size-suc order in
            elim (le_cases (idx + block_size order) page) [
              | inl up ↦ widen (omega arith) (omega (arith, wide)) (
                  carve_frees order (idx + block_size order) page b1 b' g up
                    (ground (arith, hi, block_size-suc order)) (ground (arith, left.count, real)))
              | inr down ↦
                  let f' = carve_frees order idx page b b1 f lo down real in
                  record {
                    head = f'.head;
                    order = f'.order;
                    starts = f'.starts;
                    before = f'.before;
                    inside = f'.inside;
                    real = ground (arith, f'.real, right.count);
                    free = right.outside f'.head (inl (omega (arith, f'.before, down))) ∙ f'.free;
                    listed = wider (omega (arith, wide)) (
                        carve-Listed order (idx + block_size order) f'.head f'.order b1 b' g
                          (omega (arith, f'.before, down)) f'.listed);
                  }
            ]
        | inr (inr (room, e)) ↦ pushed-IsFree idx (suc order) page b b' room e lo hi
      ]

  single_total : (idx : ℕ) (b : Buddy) → carve_block idx 0 ((rs, re) ∷ []) b none ≢ none
  unfolding carve_block scan block_size
  single_total idx b h = ground (arith, h)

  halves_total :
      (idx order : ℕ) (b b1 : Buddy) → carve_block idx order ((rs, re) ∷ []) b (some b1) ≢ none
  unfolding carve_block scan
  halves_total idx order b b1 h = ground (arith, h)

  -- Carving with one reserved interval does not panic.
  carve_total :
      (order idx : ℕ) (b : Buddy) → (b' : Buddy) × (carve order idx ((rs, re) ∷ []) b ≡ some b')
  unfolding carve
  carve_total zero idx b = elim (Option-cases (carve_block idx 0 ((rs, re) ∷ []) b none)) [
    | inl e ↦ elim (single_total idx b e) [ ]
    | inr found ↦ found
  ]
  carve_total (suc order) idx b =
      let (b1, f) = carve_total order idx b in
      let (b2, g) = carve_total order (idx + block_size order) b1 in
      elim (Option-cases (carve_block idx (suc order) ((rs, re) ∷ []) b (some b2))) [
        | inl e ↦ elim (halves_total idx (suc order) b b2 e) [ ]
        | inr (b', e) ↦ (b', rw (f, g) e)
      ]

  -- With one reserved interval, carving a block at the start-up of the page allocator
  -- succeeds, and every page of the block that exists, a reserved one included, is afterwards
  -- in a whole block of the memory that lies behind the start of the carved block, is marked
  -- as not given out, and stands in the free list of its order: the links from the head of
  -- the list lead to it, over blocks that start before the end of the carved one.
  pub carve_reserves_nothing :
      (order idx page : ℕ) (b : Buddy)
      → idx ≤ page
      → page < idx + block_size order
      → page < b.real_count
      → (b' : Buddy) × (carve order idx ((rs, re) ∷ []) b ≡ some b')
        × IsFree b' idx (idx + block_size order) page
  carve_reserves_nothing order idx page b lo hi real =
      let (b', e) = carve_total order idx b in (b', e, carve_frees order idx page b b' e lo hi real)
