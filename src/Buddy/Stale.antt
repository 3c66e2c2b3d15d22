-- ===== src/Buddy/Stale.antt =====
-- What `free` of kernel/src/mem.rs leaves of the mark of a block that it merges into the one below.
use ignium.Base.{
  ℕ, zero, suc, ◌+◌, ◌-◌, ◌≤◌, ◌<◌, ◌≡◌, ◌≢◌, refl, arith, Bool, true, false, not, ◌||◌, Option,
  none, some, ltb, ◌==◌, if◌then◌else◌, update, subst, ap, ◌∙◌,
}
use ignium.Abi.{usize_max}
use ignium.Buddy.{Buddy, block_size, push}
use ignium.Buddy.Blocks.{
  unlink_from, unlink, merge, buddy_of, accepts, free, block_index, max_order,
}

-- The marks above a page, and the sizes, are as before.
record Same (k : ℕ) (b b' : Buddy) : Type 0 where
  meta : b'.meta k ≡ b.meta k
  base : b'.base ≡ b.base
  real_count : b'.real_count ≡ b.real_count

buddy_from : {x y : Buddy} → some x ≡ some y → x ≡ y
buddy_from h = cc h

none≢buddy : {x : Buddy} → none ≢ some x
none≢buddy h = cc h

push-Same : (k idx order : ℕ) (b : Buddy) → idx < k → Same k b (push idx order b)
unfolding push
push-Same k idx order b h = record { meta = ground (arith, h); base = refl; real_count = refl }

unlink_from-Same :
    (k n target order prev cur : ℕ) (b b' : Buddy)
    → unlink_from n target order prev cur b ≡ some b'
    → Same k b b'
unfolding unlink_from
unlink_from-Same k zero target order prev cur b b' h = elim (none≢buddy h) [ ]
unlink_from-Same k (suc n) target order prev cur b b' h =
    go (cur == usize_max) (not (ltb cur b.page_count)) (not (cur == target)) (prev == usize_max)
      (unlink_from-Same k n target order cur (b.first_word cur) b b') h
  where
    go :
        (p q r s : Bool)
        → (unlink_from n target order cur (b.first_word cur) b ≡ some b' → Same k b b')
        → ◌≡◌ {A = Option Buddy}
            (if p
              then some b
              else if q
              then none
              else if r
              then unlink_from n target order cur (b.first_word cur) b
              else if s
              then some (record b { free_lists = update b.free_lists order (b.first_word cur) })
              else some (record b { first_word = update b.first_word prev (b.first_word cur) }))
            (some b')
        → Same k b b'
    go true q r s rec e =
        subst (Same k b) (buddy_from e) (record { meta = refl; base = refl; real_count = refl })
    go false true r s rec e = elim (none≢buddy e) [ ]
    go false false true s rec e = rec e
    go false false false true rec e =
        subst (Same k b) (buddy_from e) (record { meta = refl; base = refl; real_count = refl })
    go false false false false rec e =
        subst (Same k b) (buddy_from e) (record { meta = refl; base = refl; real_count = refl })

unlink-Same : (k target order : ℕ) (b b' : Buddy) → unlink target order b ≡ some b' → Same k b b'
unfolding unlink
unlink-Same k target order b b' h =
    unlink_from-Same k (b.page_count + 1) target order usize_max (b.free_lists order) b b' h

merge-Same :
    (k n idx order : ℕ) (b b' : Buddy) → idx < k → merge n idx order b ≡ some b' → Same k b b'
unfolding merge
merge-Same k zero idx order b b' h e = subst (Same k b) (buddy_from e) (push-Same k idx order b h)
merge-Same k (suc n) idx order b b' h e =
    go (ltb b.page_count (buddy_of idx order + block_size order))
      ((b.meta (buddy_of idx order)).used || not ((b.meta (buddy_of idx order)).order == order))
      (unlink (buddy_of idx order) order b) refl
      (λ b1 f. merge-Same k n lower (suc order) b1 b' (ground (arith, h)) f) e
  where
    lower : ℕ
    lower = if ltb (buddy_of idx order) idx then buddy_of idx order else idx

    go :
        (p q : Bool) (o : Option Buddy)
        → unlink (buddy_of idx order) order b ≡ o
        → ((b1 : Buddy) → merge n lower (suc order) b1 ≡ some b' → Same k b1 b')
        → ◌≡◌ {A = Option Buddy}
            (if p
              then some (push idx order b)
              else if q
              then some (push idx order b)
              else elim o [ none ↦ none | some b1 ↦ merge n lower (suc order) b1 ])
            (some b')
        → Same k b b'
    go true q o u rec e = subst (Same k b) (buddy_from e) (push-Same k idx order b h)
    go false true o u rec e = subst (Same k b) (buddy_from e) (push-Same k idx order b h)
    go false false none u rec e = elim (none≢buddy e) [ ]
    go false false (some b1) u rec e =
        let s = unlink-Same k (buddy_of idx order) order b b1 u in
        let t = rec b1 e in
        record {
          meta = t.meta ∙ s.meta;
          base = t.base ∙ s.base;
          real_count = t.real_count ∙ s.real_count;
        }

-- A block whose lower neighbour is free merges into it, and its own mark stays.
merge_lower-Same :
    (n idx order : ℕ) (b b' : Buddy)
    → 0 < n
    → buddy_of idx order < idx
    → buddy_of idx order + block_size order ≤ b.page_count
    → (b.meta (buddy_of idx order)).used ≡ false
    → (b.meta (buddy_of idx order)).order ≡ order
    → merge n idx order b ≡ some b'
    → Same idx b b'
unfolding merge
merge_lower-Same zero idx order b b' pos low fits free_one same e = ground (arith, pos)
merge_lower-Same (suc n) idx order b b' pos low fits free_one same e =
    go (ltb b.page_count (buddy_of idx order + block_size order))
      ((b.meta (buddy_of idx order)).used || not ((b.meta (buddy_of idx order)).order == order))
      (unlink (buddy_of idx order) order b) (ground (arith, fits)) (ground (arith, free_one, same))
      refl (λ b1 f. merge-Same idx n lower (suc order) b1 b' (ground (arith, low)) f) e
  where
    lower : ℕ
    lower = if ltb (buddy_of idx order) idx then buddy_of idx order else idx

    go :
        (p q : Bool) (o : Option Buddy)
        → p ≡ false
        → q ≡ false
        → unlink (buddy_of idx order) order b ≡ o
        → ((b1 : Buddy) → merge n lower (suc order) b1 ≡ some b' → Same idx b1 b')
        → ◌≡◌ {A = Option Buddy}
            (if p
              then some (push idx order b)
              else if q
              then some (push idx order b)
              else elim o [ none ↦ none | some b1 ↦ merge n lower (suc order) b1 ])
            (some b')
        → Same idx b b'
    go true q o x y u rec e = ground (arith, x)
    go false true o x y u rec e = ground (arith, y)
    go false false none x y u rec e = elim (none≢buddy e) [ ]
    go false false (some b1) x y u rec e =
        let s = unlink-Same idx (buddy_of idx order) order b b1 u in
        let t = rec b1 e in
        record {
          meta = t.meta ∙ s.meta;
          base = t.base ∙ s.base;
          real_count = t.real_count ∙ s.real_count;
        }

freed_from : {x y : Bool × Buddy} → some x ≡ some y → x ≡ y
freed_from h = cc h

none≢freed : {x : Bool × Buddy} → none ≢ some x
none≢freed h = cc h

accepts-Same :
    (addr : ℕ) (b b' : Buddy)
    → Same (block_index addr b) b b'
    → accepts addr b ≡ true
    → accepts addr b' ≡ true
unfolding accepts block_index
accepts-Same addr b b' s h = rw (s.base, s.real_count, s.meta) h

-- When free succeeds in giving back a block below the largest order whose lower neighbour of
-- the same order is in range and free, so that the two merge, its tests accept the same address
-- again: the mark of the block as given out stays.
pub free-accepts :
    (addr : ℕ) (b b' : Buddy)
    → accepts addr b ≡ true
    → (b.meta (block_index addr b)).order < max_order
    → buddy_of (block_index addr b) (b.meta (block_index addr b)).order < block_index addr b
    → buddy_of (block_index addr b) (b.meta (block_index addr b)).order
        + block_size (b.meta (block_index addr b)).order
      ≤ b.page_count
    → (b.meta (buddy_of (block_index addr b) (b.meta (block_index addr b)).order)).used ≡ false
    → (b.meta (buddy_of (block_index addr b) (b.meta (block_index addr b)).order)).order
      ≡ (b.meta (block_index addr b)).order
    → free addr b ≡ some (true, b')
    → accepts addr b' ≡ true
unfolding free
free-accepts addr b b' ok below low fits free_one same e =
    go (merge (max_order - order) idx order b) refl (accepts addr b) ok e
  where
    idx : ℕ
    idx = block_index addr b

    order : ℕ
    order = (b.meta idx).order

    go :
        (o : Option Buddy)
        → merge (max_order - order) idx order b ≡ o
        → (p : Bool) → p ≡ true
        → ◌≡◌ {A = Option (Bool × Buddy)}
            (if p then elim o [ none ↦ none | some b1 ↦ some (true, b1) ] else some (false, b))
            (some (true, b'))
        → accepts addr b' ≡ true
    go o m false x e = ground (arith, x)
    go none m true x e = elim (none≢freed e) [ ]
    go (some b1) m true x e =
        let s =
          merge_lower-Same (max_order - order) idx order b b1 (ground (arith, below)) low fits
            free_one same m in
        let t : b1 ≡ b' = ap (λ r. r.1) (freed_from e) in
        subst (λ y. accepts addr y ≡ true) t (accepts-Same addr b b1 s ok)
