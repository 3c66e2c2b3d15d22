-- ===== src/Mmu/Tree.antt =====
-- The page tables of kernel/src/mmu.rs as a tree, and the pages that the allocator gives out.
use ignium.Base.{
  ℕ, ◌%◌, ◌≤◌, ◌<◌, ◌≡◌, ◌≢◌, refl, arith, Bool, true, false, ◌&&◌, Option, none, some, List, [],
  ◌∷◌, ◌==◌, if◌then◌else◌, not, ap, sym, subst, ◌∙◌,
}
use ignium.Base.Counting.{count}
use ignium.Mmu.{
  Tables, pte, pte_v, is_valid, is_leaf, table_of, l2, l1, pte_write, zero_page, alloc_zeroed,
  ensure_table, leaf_pte, last_table,
}
use ignium.Mmu.Words.{is_valid-table, is_leaf-table, table_of-pte, paddr_limit}

-- What a page is: no table (0), the root (1), a middle table (2) or a last one (3), and the indices that
-- lead to it.
pub record Role : Type 0 where
  pub kind : ℕ → ℕ
  pub at2 : ℕ → ℕ
  pub at1 : ℕ → ℕ

-- An entry that points to a table.
abbrev pub points : ℕ → Bool
points e = is_valid e && not (is_leaf e)

pub record IsTree (ρ : Role) (root : ℕ) (m : Tables) : Type 0 where
  pub top : ρ.kind root ≡ 1
  pub middles :
      (i : ℕ)
      → points (m.mem root i) ≡ true
      → (ρ.kind (table_of (m.mem root i)) ≡ 2) × (ρ.at2 (table_of (m.mem root i)) ≡ i)
  pub lasts :
      (t i : ℕ)
      → ρ.kind t ≡ 2
      → points (m.mem t i) ≡ true
      → (ρ.kind (table_of (m.mem t i)) ≡ 3)
        × (ρ.at2 (table_of (m.mem t i)) ≡ ρ.at2 t)
        × (ρ.at1 (table_of (m.mem t i)) ≡ i)
  pub unused : (p : ℕ) → 0 < count p m.pages → (ρ.kind p ≡ 0) × (p % 4096 ≡ 0) × (p < paddr_limit)
  pub once : (p : ℕ) → count p m.pages ≤ 1

-- A page becomes a table.
abbrev pub becomes : ℕ → ℕ → ℕ → ℕ → Role → Role
becomes p k i j ρ = record {
  kind = λ q. if p == q then k else ρ.kind q;
  at2 = λ q. if p == q then i else ρ.at2 q;
  at1 = λ q. if p == q then j else ρ.at1 q;
}

-- What making sure of a middle table gives.
pub record Ensured (root parent idx : ℕ) (ρ : Role) (m : Tables) (t : ℕ) (m' : Tables)
    : Type 0 where
  pub role : Role
  pub tree : IsTree role root m'
  pub points_to : (points (m'.mem parent idx) ≡ true) × (table_of (m'.mem parent idx) ≡ t)
  pub keeps : (va : ℕ) → leaf_pte root va m' ≡ leaf_pte root va m
  pub others : (q e : ℕ) → points (m.mem q e) ≡ true → ρ.kind q ≢ 0 → m'.mem q e ≡ m.mem q e

zero-points : points 0 ≡ false
unfolding is_valid is_leaf
zero-points = refl

zero-valid : is_valid 0 ≡ false
unfolding is_valid
zero-valid = refl

middle-Ensured :
    (root idx p : ℕ) (rest : List ℕ) (ρ : Role) (m : Tables)
    → IsTree ρ root m
    → m.pages ≡ p ∷ rest
    → is_valid (m.mem root idx) ≡ false
    → Ensured root root idx ρ m p
        (pte_write root idx (pte p pte_v) (zero_page p (record m { pages = rest })))
unfolding pte_write zero_page leaf_pte
middle-Ensured root idx p rest ρ m v e empty = record {
  role = becomes p 2 idx 0 ρ;
  tree = record {
    top = ground (arith, v.top, new);
    middles = λ i h.
        ground
          (arith, v.top, new, v.middles i, is_valid-table p, is_leaf-table p, back, h, zero-points);
    lasts = λ t i k h. ground (arith, v.top, new, v.lasts t i, zero-points, k, h);
    unused = λ q more. ground (arith, v.unused q, v.once q, e, more);
    once = λ q. ground (arith, v.once q, e);
  };
  points_to = (ground (arith, is_valid-table p, is_leaf-table p), ground (arith, back));
  keeps = λ va. ground (
    arith,
    v.top,
    new,
    v.middles (l2 va),
    empty,
    is_valid-table p,
    is_leaf-table p,
    back,
    zero-valid,
    v.lasts (table_of (m.mem root (l2 va))) (l1 va),
  );
  others = λ q f h k. ground (arith, h, k, new, empty);
}
  where
    new : (ρ.kind p ≡ 0) × (p % 4096 ≡ 0) × (p < paddr_limit)
    new = v.unused p (ground (arith, e))

    back : table_of (pte p 1) ≡ p
    back = table_of-pte p 1 new.1 new.2 (omega arith)

last-Ensured :
    (root t idx p : ℕ) (rest : List ℕ) (ρ : Role) (m : Tables)
    → IsTree ρ root m
    → ρ.kind t ≡ 2
    → m.pages ≡ p ∷ rest
    → is_valid (m.mem t idx) ≡ false
    → Ensured root t idx ρ m p
        (pte_write t idx (pte p pte_v) (zero_page p (record m { pages = rest })))
unfolding pte_write zero_page leaf_pte
last-Ensured root t idx p rest ρ m v mid e empty = record {
  role = becomes p 3 (ρ.at2 t) idx ρ;
  tree = record {
    top = ground (arith, v.top, new);
    middles = λ i h. ground (arith, v.top, new, mid, v.middles i, h, zero-points);
    lasts = λ s i k h. ground (
      arith,
      v.top,
      new,
      mid,
      v.lasts s i,
      is_valid-table p,
      is_leaf-table p,
      back,
      zero-points,
      k,
      h,
    );
    unused = λ q more. ground (arith, v.unused q, v.once q, e, more);
    once = λ q. ground (arith, v.once q, e);
  };
  points_to = (ground (arith, is_valid-table p, is_leaf-table p), ground (arith, back));
  keeps = λ va. ground (
    arith,
    v.top,
    new,
    mid,
    v.middles (l2 va),
    empty,
    is_valid-table p,
    is_leaf-table p,
    back,
    zero-valid,
    v.lasts (table_of (m.mem root (l2 va))) (l1 va),
  );
  others = λ q f h k. ground (arith, h, k, new, empty);
}
  where
    new : (ρ.kind p ≡ 0) × (p % 4096 ≡ 0) × (p < paddr_limit)
    new = v.unused p (ground (arith, e))

    back : table_of (pte p 1) ≡ p
    back = table_of-pte p 1 new.1 new.2 (omega arith)

-- The entry points to a table already.
kept-Ensured :
    (root parent idx : ℕ) (ρ : Role) (m : Tables)
    → IsTree ρ root m
    → points (m.mem parent idx) ≡ true
    → Ensured root parent idx ρ m (table_of (m.mem parent idx)) m
kept-Ensured root parent idx ρ m v h = record {
  role = ρ;
  tree = v;
  points_to = (h, refl);
  keeps = λ va. refl;
  others = λ q e _ _. refl;
}

-- Making sure of a table gives one that the entry points to, or an error that changes nothing.
abbrev pub Outcome : ℕ → ℕ → ℕ → Role → Tables → Option ℕ × Tables → Type 0
Outcome root parent idx ρ m (none, m') = m' ≡ m
Outcome root parent idx ρ m (some t, m') = Ensured root parent idx ρ m t m'

ensure-Outcome :
    (root parent idx : ℕ) (ρ : Role) (m : Tables)
    → IsTree ρ root m
    → ((p : ℕ) (rest : List ℕ)
        → m.pages ≡ p ∷ rest
        → is_valid (m.mem parent idx) ≡ false
        → Ensured root parent idx ρ m p
            (pte_write parent idx (pte p pte_v) (zero_page p (record m { pages = rest }))))
    → Outcome root parent idx ρ m (ensure_table parent idx m)
unfolding ensure_table alloc_zeroed
ensure-Outcome root parent idx ρ m v new =
    go (is_valid (m.mem parent idx)) (is_leaf (m.mem parent idx)) m.pages refl refl refl
  where
    go :
        (b c : Bool) (l : List ℕ)
        → is_valid (m.mem parent idx) ≡ b
        → is_leaf (m.mem parent idx) ≡ c
        → m.pages ≡ l
        → Outcome root parent idx ρ m (
            let r : Option ℕ × Tables = elim l [
              | [] ↦ (none, m)
              | p ∷ rest ↦ (some p, zero_page p (record m { pages = rest }))
            ] in
            if b
            then if c then (none, m) else (some (table_of (m.mem parent idx)), m)
            else elim r.0 [
              | none ↦ (none, r.1)
              | some p ↦ (some p, pte_write parent idx (pte p pte_v) r.1)
            ])
    go true true l e f g = refl
    go true false l e f g = kept-Ensured root parent idx ρ m v (ground (arith, e, f))
    go false c [] e f g = refl
    go false c (p ∷ rest) e f g = new p rest g e

pub ensure_root-Outcome :
    (root idx : ℕ) (ρ : Role) (m : Tables)
    → IsTree ρ root m
    → Outcome root root idx ρ m (ensure_table root idx m)
ensure_root-Outcome root idx ρ m v =
    ensure-Outcome root root idx ρ m v (λ p rest e f. middle-Ensured root idx p rest ρ m v e f)

pub ensure_middle-Outcome :
    (root t idx : ℕ) (ρ : Role) (m : Tables)
    → IsTree ρ root m
    → ρ.kind t ≡ 2
    → Outcome root t idx ρ m (ensure_table t idx m)
ensure_middle-Outcome root t idx ρ m v mid =
    ensure-Outcome root t idx ρ m v (λ p rest e f. last-Ensured root t idx p rest ρ m v mid e f)

-- The way to the last table of an address.
pub record Walked (root va : ℕ) (m : Tables) (t : ℕ) (m' : Tables) : Type 0 where
  pub role : Role
  pub tree : IsTree role root m'
  pub up : points (m'.mem root (l2 va)) ≡ true
  pub down : points (m'.mem (table_of (m'.mem root (l2 va))) (l1 va)) ≡ true
  pub end : table_of (m'.mem (table_of (m'.mem root (l2 va))) (l1 va)) ≡ t
  pub keeps : (q : ℕ) → leaf_pte root q m' ≡ leaf_pte root q m

abbrev pub Walk : ℕ → ℕ → Tables → Option ℕ × Tables → Type 0
Walk root va m (none, m') =
    ((ρ : Role) × IsTree ρ root m') × ((q : ℕ) → leaf_pte root q m' ≡ leaf_pte root q m)
Walk root va m (some t, m') = Walked root va m t m'

pub last_table-Walk :
    (root va : ℕ) (ρ : Role) (m : Tables) → IsTree ρ root m → Walk root va m (last_table root va m)
unfolding last_table
last_table-Walk root va ρ m v =
    go (ensure_table root (l2 va) m) (ensure_root-Outcome root (l2 va) ρ m v)
  where
    second :
        (t : ℕ) (m1 : Tables) (e : Ensured root root (l2 va) ρ m t m1) (r : Option ℕ × Tables)
        → Outcome root t (l1 va) e.role m1 r
        → Walk root va m r
    second t m1 e (none, m2) same = (
      (e.role, subst (IsTree e.role root) (sym same) e.tree),
      λ q. ap (leaf_pte root q) same ∙ e.keeps q,
    )
    second t m1 e (some t0, m2) f =
        let still = f.others root (l2 va) e.points_to.0 (ground (arith, e.tree.top)) in
        record {
          role = f.role;
          tree = f.tree;
          up = ap points still ∙ e.points_to.0;
          down = rw (still, e.points_to.1) (f.points_to.0);
          end = rw (still, e.points_to.1) (f.points_to.1);
          keeps = λ q. f.keeps q ∙ e.keeps q;
        }

    go :
        (r : Option ℕ × Tables)
        → Outcome root root (l2 va) ρ m r
        → Walk root va m (elim r.0 [ none ↦ (none, r.1) | some t ↦ ensure_table t (l1 va) r.1 ])
    go (none, m1) same = ((ρ, subst (IsTree ρ root) (sym same) v), λ q. ap (leaf_pte root q) same)
    go (some t, m1) e = second t m1 e (ensure_table t (l1 va) m1) (
        ensure_middle-Outcome root t (l1 va) e.role m1 e.tree
          (ground (arith, e.tree.middles (l2 va), e.points_to)))
