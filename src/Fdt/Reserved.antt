-- ===== src/Fdt/Reserved.antt =====
-- The loop of `BoardParams::add_reserved` (kernel/src/fdt.rs) over a table of entries that stay apart.
use ignium.Base.{
  ℕ, zero, suc, ◌+◌, ◌-◌, ◌≤◌, ◌<◌, ◌≡◌, refl, ◌∙◌, subst, Bool, true, false, ◌&&◌, ◌||◌, inl, inr,
  arith, ◌==◌, ltb, leb, Bool-cases,
}
use ignium.Fdt.{word, sat_add, min, max, end_of, Merge, overlaps, absorb, merge_from}
use ignium.Fdt.Merging.{within, covers, covers-remove}

-- Two intervals have an address in common.
abbrev pub meets : ℕ × ℕ → ℕ × ℕ → Bool
meets a b = ltb a.0 (end_of b) && ltb b.0 (end_of a)

pub record IsTable (e : ℕ → ℕ × ℕ) (n : ℕ) : Type 0 where
  pub small : (i : ℕ) → i < n → (e i).0 < word
  pub apart : (i j : ℕ) → i < n → j < n → (i == j) ≡ false → meets (e i) (e j) ≡ false

-- Before the turn on entry `i`: the new interval meets none of the entries before it.
pub record Good (i : ℕ) (m : Merge) : Type 0 where
  pub table : IsTable m.entries m.len
  pub addr_small : m.addr < word
  pub end_is : m.end ≡ end_of (m.addr, m.size)
  pub passed : (j : ℕ) → j < i → j < m.len → overlaps m (m.entries j) ≡ false

abbrev pub adds : Merge → ℕ → Bool
adds m x = leb m.addr x && ltb x m.end

absorb-end :
    (i : ℕ) (m : Merge)
    → (m.entries i).0 < word
    → m.addr < word
    → m.end ≡ end_of (m.addr, m.size)
    → (absorb i m).end ≡ end_of ((absorb i m).addr, (absorb i m).size)
unfolding absorb end_of sat_add min max
absorb-end i m s a e = ground (arith, e)

absorb-IsTable :
    (i : ℕ) (m : Merge)
    → i < m.len
    → IsTable m.entries m.len
    → IsTable (absorb i m).entries (absorb i m).len
unfolding absorb
absorb-IsTable i m h t = record {
  small = λ j l. ground (arith, t.small j (omega arith), t.small (m.len - 1) (omega arith));
  apart = λ j k lj lk d. ground (
    arith,
    t.apart j k (omega arith) (omega arith) d,
    t.apart (m.len - 1) k (omega arith) (omega arith),
    t.apart j (m.len - 1) (omega arith) (omega arith),
  );
}

absorb-passed :
    (i j : ℕ) (m : Merge)
    → Good i m
    → i < m.len
    → j < i
    → j < m.len - 1
    → overlaps m (m.entries i) ≡ true
    → overlaps (absorb i m) ((absorb i m).entries j) ≡ false
unfolding absorb overlaps end_of sat_add min max
absorb-passed i j m g h l k o = ground (
  arith,
  g.passed j l (omega arith),
  g.table.apart j i (omega arith) h (ground arith),
  g.table.small j (omega arith),
  g.table.small i h,
  g.addr_small,
)

absorb-adds :
    (i x : ℕ) (m : Merge)
    → Good i m
    → (m.entries i).0 < word
    → overlaps m (m.entries i) ≡ true
    → adds (absorb i m) x ≡ (adds m x || within (m.entries i) x)
unfolding absorb overlaps end_of sat_add min max
absorb-adds i x m g s o = ground (arith, g.end_is, g.addr_small)

absorb-covers :
    (i x : ℕ) (m : Merge)
    → Good i m
    → i < m.len
    → overlaps m (m.entries i) ≡ true
    → (covers (absorb i m).entries (absorb i m).len x || adds (absorb i m) x)
      ≡ (covers m.entries m.len x || adds m x)
absorb-covers i x m g h o =
    let kept : (covers (absorb i m).entries (absorb i m).len x || within (m.entries i) x)
        ≡ covers m.entries m.len x =
      unfold absorb in covers-remove m.entries m.len i x h in
    ground (arith, kept, absorb-adds i x m g (g.table.small i h) o)

absorb-Good :
    (i : ℕ) (m : Merge)
    → Good i m
    → i < m.len
    → overlaps m (m.entries i) ≡ true
    → Good i (absorb i m)
unfolding absorb
absorb-Good i m g h o = record {
  table = absorb-IsTable i m h g.table;
  addr_small = unfold min in ground (arith, g.addr_small);
  end_is = absorb-end i m (g.table.small i h) g.addr_small g.end_is;
  passed = λ j l k. absorb-passed i j m g h l k o;
}

next-Good : (i : ℕ) (m : Merge) → Good i m → overlaps m (m.entries i) ≡ false → Good (suc i) m
next-Good i m g o = record {
  table = g.table;
  addr_small = g.addr_small;
  end_is = g.end_is;
  passed = λ j l k. elim (Bool-cases (j == i)) [
    | inl same ↦ let q : j ≡ i = ground (arith, same) in rw q o
    | inr other ↦ g.passed j (ground (arith, other, l)) k
  ];
}

-- What the loop leaves of the table and the new interval that it starts from.
pub record Merged (m r : Merge) : Type 0 where
  pub good : Good r.len r
  pub len_le : r.len ≤ m.len
  pub unmoved : r.len ≡ m.len → r ≡ m
  pub together :
      (x : ℕ) → (covers r.entries r.len x || adds r x) ≡ (covers m.entries m.len x || adds m x)

pub merge_from-Merged :
    (n i : ℕ) (m : Merge) → n + i ≡ m.len → Good i m → Merged m (merge_from n i m)
unfolding merge_from
merge_from-Merged zero i m e g = record {
  good = subst (λ k. Good k m) (omega (arith, e)) g;
  len_le = omega arith;
  unmoved = λ q. refl;
  together = λ x. refl;
}
merge_from-Merged (suc n) i m e g =
    let inside : ltb i m.len ≡ true = ground (arith, e) in
    elim (Bool-cases (overlaps m (m.entries i))) [
      | inl o ↦
          let h : i < m.len = omega (arith, e) in
          let len_is : (absorb i m).len ≡ m.len - 1 = unfold absorb in refl in
          let r =
            merge_from-Merged n i (absorb i m) (omega (arith, e, len_is)) (absorb-Good i m g h o) in
          rw (inside, o)
            (record {
              good = r.good;
              len_le = omega (arith, r.len_le, len_is);
              unmoved = λ q. absurd (omega (arith, q, r.len_le, len_is, h));
              together = λ x. r.together x ∙ absorb-covers i x m g h o;
            })
      | inr o ↦
          let r = merge_from-Merged n (suc i) m (omega (arith, e)) (next-Good i m g o) in
          rw (inside, o) r
    ]
