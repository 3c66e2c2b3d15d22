-- ===== src/Fdt/Adding.antt =====
-- `BoardParams::add_reserved` (kernel/src/fdt.rs) as a whole: the table behind it.
use ignium.Base.{
  ℕ, zero, suc, ◌≤◌, ◌<◌, ◌≡◌, refl, sym, ap, ◌∙◌, Bool, true, ◌&&◌, ◌||◌, inl, inr, arith, ◌==◌,
  ltb, leb, update, Bool-cases, ◌⊎◌,
}
use ignium.Fdt.{
  word, sat_add, BoardParams, max_reserved, end_of, Merge, overlaps, put_reserved, merge_start,
  add_reserved,
}
use ignium.Fdt.Merging.{within, covers}
use ignium.Fdt.Reserved.{IsTable, Good, Merged, adds, merge_from-Merged}

covers-beyond :
    (e : ℕ → ℕ × ℕ) (n i x : ℕ) (v : ℕ × ℕ) → n ≤ i → covers (update e i v) n x ≡ covers e n x
covers-beyond e zero i x v h = refl
covers-beyond e (suc n) i x v h = ground (arith, covers-beyond e n i x v (omega arith))

-- The new interval stands behind the entries that it does not meet.
put-IsTable :
    (r : Merge) → Good r.len r → IsTable (update r.entries r.len (r.addr, r.size)) (suc r.len)
put-IsTable r g = record {
  small = λ i h. ground (arith, g.addr_small, g.table.small i, h);
  apart = λ i j hi hj d.
      unfold overlaps in
      ground (arith, g.table.apart i j, g.end_is, g.passed i, g.passed j, hi, hj, d);
}

put-covers :
    (r : Merge) (x : ℕ)
    → Good r.len r
    → covers (update r.entries r.len (r.addr, r.size)) (suc r.len) x
      ≡ (covers r.entries r.len x || adds r x)
put-covers r x g =
    let e = update r.entries r.len (r.addr, r.size) in
    let placed : e r.len ≡ (r.addr, r.size) = ground arith in
    let last : within (e r.len) x ≡ adds r x =
      ap (λ (u : ℕ × ℕ). within u x) placed
      ∙ ap (λ (k : ℕ). leb r.addr x && ltb x k) (sym g.end_is) in
    ground (arith, covers-beyond r.entries r.len r.len x (r.addr, r.size) (omega arith), last)

abbrev pub table_covers : BoardParams → ℕ → Bool
table_covers p x = covers p.reserved p.reserved_count x

-- The table covers the new interval as well, or it was full and is as before.
pub record Added (addr size : ℕ) (p r : BoardParams) : Type 0 where
  pub bounded : r.reserved_count ≤ max_reserved
  pub table : IsTable r.reserved r.reserved_count
  pub exact :
      ((x : ℕ) → table_covers r x ≡ (table_covers p x || (ltb 0 addr && within (addr, size) x)))
      ⊎ ((p.reserved_count ≡ max_reserved)
          × ((r.reserved ≡ p.reserved) × (r.reserved_count ≡ p.reserved_count)))

-- Either way it covers what it did.
pub Added-kept :
    (addr size : ℕ) (p r : BoardParams)
    → Added addr size p r
    → (x : ℕ) → table_covers p x ≡ true
    → table_covers r x ≡ true
Added-kept addr size p r a x h = elim a.exact [
  | inl new ↦ new x ∙ ground (arith, h)
  | inr full ↦ rw (full.1.0, full.1.1) h
]

-- A table with room covers the new interval.
pub Added-exact :
    (addr size : ℕ) (p r : BoardParams)
    → Added addr size p r
    → p.reserved_count < max_reserved
    → (x : ℕ) → table_covers r x ≡ (table_covers p x || (ltb 0 addr && within (addr, size) x))
Added-exact addr size p r a h x = elim a.exact [
  | inl new ↦ new x
  | inr full ↦ absurd (omega (arith, full.0, h))
]

put_reserved-Added :
    (addr size : ℕ) (p : BoardParams) (r : Merge)
    → ltb 0 addr ≡ true
    → p.reserved_count ≤ max_reserved
    → Merged (merge_start addr size p) r
    → Added addr size p (put_reserved r p)
unfolding put_reserved merge_start sat_add end_of
put_reserved-Added addr size p r a few m =
    let together : (x : ℕ)
        → (covers r.entries r.len x || adds r x)
          ≡ (covers p.reserved p.reserved_count x || within (addr, size) x) =
      m.together in
    elim (Bool-cases (ltb r.len max_reserved)) [
      | inl room ↦ rw room (record {
        bounded = ground (arith, room);
        table = put-IsTable r m.good;
        exact = inl (λ x. put-covers r x m.good ∙ ground (arith, together x, a));
      })
      | inr full ↦
          let same = m.unmoved (ground (arith, full, few, m.len_le)) in
          rw full (record {
            bounded = ground (arith, few, m.len_le);
            table = m.good.table;
            exact = inr (
              ground (arith, full, few, ap (λ (q : Merge). q.len) same),
              (ap (λ (q : Merge). q.entries) same, ap (λ (q : Merge). q.len) same),
            );
          })
    ]

-- To a table of at most eight intervals below 2^64 of which no two have an address in common,
-- add_reserved leaves such a table. It covers what the table covered and the new interval, if
-- that does not begin at 0, and no other address; or the table was full and is as before.
pub add_reserved-Added :
    (addr size : ℕ) (p : BoardParams)
    → addr < word
    → p.reserved_count ≤ max_reserved
    → IsTable p.reserved p.reserved_count
    → Added addr size p (add_reserved addr size p)
unfolding add_reserved
add_reserved-Added addr size p a few t = elim (Bool-cases (addr == 0 || size == 0)) [
  | inl skipped ↦ rw skipped (record {
    bounded = few;
    table = t;
    exact = inl (λ x. unfold end_of sat_add in ground (arith, skipped));
  })
  | inr given ↦
      let m = merge_start addr size p in
      let g : Good 0 m =
        unfold merge_start end_of in
        record { table = t; addr_small = a; end_is = refl; passed = λ j h. elim h [ ] } in
      rw given (
        put_reserved-Added addr size p _ (ground (arith, given)) few
          (merge_from-Merged p.reserved_count 0 m (unfold merge_start in omega arith) g))
]
