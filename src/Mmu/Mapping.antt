-- ===== src/Mmu/Mapping.antt =====
-- Mapping and unmapping (kernel/src/mmu.rs) as changes of a partial map from page numbers to entries.
use ignium.Base.{
  ◌*◌, ℕ, ◌%◌, ◌<◌, ◌≡◌, refl, arith, Bool, true, false, ◌&&◌, inl, inr, Option, none, some, ◌==◌,
  ltb, if◌then◌else◌, not, Bool-cases, ap, sym, ◌∙◌,
}
use ignium.Abi.{user_va_limit}
use ignium.Base.Bits.{bit_or_digit}
use ignium.Mmu.{
  Tables, pte, is_valid, is_leaf, table_of, l2, l1, l0, pte_write, leaf_pte, last_table,
  ensure_table, map_new, map_user_page, unmap_4k, with_u, ppn,
}
use ignium.Mmu.Tree.{Role, IsTree, points, Walked, Walk, last_table-Walk}

-- Two addresses of one page.
abbrev pub same_page : ℕ → ℕ → Bool
same_page q va = l2 q == l2 va && (l1 q == l1 va && l0 q == l0 va)

-- What an entry stands for.
abbrev pub entry_of : ℕ → ℕ
entry_of e = if is_valid e then e else 0

leaf_pte-write :
    (root va t : ℕ) (m m' : Tables) (e q : ℕ)
    → Walked root va m t m'
    → leaf_pte root q (pte_write t (l0 va) e m')
      ≡ (if same_page q va then entry_of e else leaf_pte root q m)
unfolding leaf_pte pte_write
leaf_pte-write root va t m m' e q w = ground (
  arith,
  w.keeps q,
  w.up,
  w.down,
  w.end,
  w.tree.top,
  w.tree.middles (l2 va),
  w.tree.middles (l2 q),
  w.tree.lasts (table_of (m'.mem root (l2 va))) (l1 va),
  w.tree.lasts (table_of (m'.mem root (l2 q))) (l1 q),
)

write-IsTree :
    (root va t : ℕ) (m m' : Tables) (e : ℕ) (w : Walked root va m t m')
    → IsTree w.role root (pte_write t (l0 va) e m')
unfolding pte_write
write-IsTree root va t m m' e w = record {
  top = w.tree.top;
  middles = λ i h. ground (
    arith,
    w.tree.middles i,
    w.up,
    w.down,
    w.end,
    w.tree.top,
    w.tree.middles (l2 va),
    w.tree.lasts (table_of (m'.mem root (l2 va))) (l1 va),
    h,
  );
  lasts = λ s i k h. ground (
    arith,
    w.tree.lasts s i,
    w.up,
    w.down,
    w.end,
    w.tree.top,
    w.tree.middles (l2 va),
    w.tree.lasts (table_of (m'.mem root (l2 va))) (l1 va),
    k,
    h,
  );
  unused = w.tree.unused;
  once = w.tree.once;
}

-- The entry of a mapping is valid.
is_valid-pte : (paddr flags : ℕ) → flags % 2 ≡ 1 → is_valid (pte paddr (with_u flags)) ≡ true
unfolding is_valid pte with_u ppn
is_valid-pte paddr flags h = ground (arith, h, bit_or_digit (ppn paddr * 1024) (with_u flags))

-- The map that a step leaves: one entry changed where it succeeds, nothing where it fails.
abbrev pub Changes : ℕ → ℕ → ℕ → Tables → Bool × Tables → Type 0
Changes root va e m r =
    ((ρ : Role) × IsTree ρ root r.1)
    × ((q : ℕ) → leaf_pte root q r.1 ≡ (if r.0 && same_page q va then e else leaf_pte root q m))

map_new-Changes :
    (root va paddr flags : ℕ) (ρ : Role) (m : Tables)
    → IsTree ρ root m
    → flags % 2 ≡ 1
    → Changes root va (pte paddr (with_u flags)) m (map_new root va paddr flags m)
unfolding map_new
map_new-Changes root va paddr flags ρ m v odd =
    go (last_table root va m) (last_table-Walk root va ρ m v)
  where
    go :
        (r : Option ℕ × Tables)
        → Walk root va m r
        → Changes root va (pte paddr (with_u flags)) m (elim r.0 [
          | none ↦ (false, r.1)
          | some t ↦
              if is_valid (r.1.mem t (l0 va))
              then (false, r.1)
              else (true, pte_write t (l0 va) (pte paddr (with_u flags)) r.1)
        ])
    go (none, m') w = w
    go (some t, m') w = elim (Bool-cases (is_valid (m'.mem t (l0 va)))) [
      | inl e ↦ rw e ((w.role, w.tree), w.keeps)
      | inr e ↦ rw e (
        (w.role, write-IsTree root va t m m' (pte paddr (with_u flags)) w),
        λ q. ground (
          arith,
          leaf_pte-write root va t m m' (pte paddr (with_u flags)) q w,
          is_valid-pte paddr flags odd,
        ),
      )
    ]

leaf_pte-same_page :
    (root q va : ℕ) (m : Tables) → same_page q va ≡ true → leaf_pte root q m ≡ leaf_pte root va m
unfolding leaf_pte
leaf_pte-same_page root q va m h =
    let a : l2 q ≡ l2 va = ground (arith, h) in
    let b : l1 q ≡ l1 va = ground (arith, h) in
    let c : l0 q ≡ l0 va = ground (arith, h) in rw (a, b, c) refl

pub unmap_4k-Changes :
    (root va : ℕ) (ρ : Role) (m : Tables)
    → IsTree ρ root m
    → Changes root va 0 m (unmap_4k root va m)
unfolding unmap_4k
unmap_4k-Changes root va ρ m v = elim (Bool-cases (leaf_pte root va m == 0)) [
  | inl e ↦ rw (unmap_4k, e) ((ρ, v), λ q. ground (arith, e, leaf_pte-same_page root q va m))
  | inr e ↦ rw (unmap_4k, e) (go (last_table root va m) (last_table-Walk root va ρ m v))
]
  where
    go :
        (r : Option ℕ × Tables)
        → Walk root va m r
        → Changes root va 0 m
            (elim r.0 [ none ↦ (false, r.1) | some t ↦ (true, pte_write t (l0 va) 0 r.1) ])
    go (none, m') w = w
    go (some t, m') w = (
      (w.role, write-IsTree root va t m m' 0 w),
      λ q. ground (arith, leaf_pte-write root va t m m' 0 q w),
    )

-- Where the tables form a tree and the flags have the valid bit, map_user_page leaves a tree
-- again, and changes what an address resolves to as a partial map of pages does: on success the
-- entry of the page alone is the new one with the user bit, on an error nothing changes, for
-- every address and also where tables were added on the way.
pub map_user_page-Changes :
    (in_range : ℕ → Bool) (root va paddr flags : ℕ) (ρ : Role) (m : Tables)
    → IsTree ρ root m
    → flags % 2 ≡ 1
    → let r = map_user_page in_range root va paddr flags m in
      ((ρ' : Role) × IsTree ρ' root r.1)
      × ((q : ℕ)
          → leaf_pte root q r.1
            ≡ (if r.0 && same_page q va then pte paddr (with_u flags) else leaf_pte root q m))
unfolding map_user_page
map_user_page-Changes in_range root va paddr flags ρ m v odd =
    guarded (not (ltb va user_va_limit)) (not (paddr % 4096 == 0)) (not (in_range paddr))
      (map_new root va paddr flags m) (map_new-Changes root va paddr flags ρ m v odd)
  where
    guarded :
        (a b c : Bool) (r : Bool × Tables)
        → Changes root va (pte paddr (with_u flags)) m r
        → Changes root va
            (pte paddr (with_u flags))
            m
            (if a then (false, m) else if b then (false, m) else if c then (false, m) else r)
    guarded true b c r h = ((ρ, v), λ q. refl)
    guarded false true c r h = ((ρ, v), λ q. refl)
    guarded false false true r h = ((ρ, v), λ q. refl)
    guarded false false false r h = h

ensure_table-points :
    (parent idx : ℕ) (m : Tables)
    → points (m.mem parent idx) ≡ true
    → ensure_table parent idx m ≡ (some (table_of (m.mem parent idx)), m)
unfolding ensure_table
ensure_table-points parent idx m h =
    let a : is_valid (m.mem parent idx) ≡ true = ground (arith, h) in
    let b : is_leaf (m.mem parent idx) ≡ false = ground (arith, h) in rw (a, b) refl

last_table-points :
    (root va : ℕ) (m : Tables)
    → points (m.mem root (l2 va)) ≡ true
    → points (m.mem (table_of (m.mem root (l2 va))) (l1 va)) ≡ true
    → last_table root va m ≡ (some (table_of (m.mem (table_of (m.mem root (l2 va))) (l1 va))), m)
unfolding last_table
last_table-points root va m h g =
    let next : Option ℕ × Tables → Option ℕ × Tables =
      λ r. elim r.0 [ none ↦ (none, r.1) | some t ↦ ensure_table t (l1 va) r.1 ] in
    ap next (ensure_table-points root (l2 va) m h)
    ∙ ensure_table-points (table_of (m.mem root (l2 va))) (l1 va) m g

-- Where the tables down to the last one exist, unmapping succeeds.
unmap_succeeds :
    (root va : ℕ) (m : Tables)
    → points (m.mem root (l2 va)) ≡ true
    → points (m.mem (table_of (m.mem root (l2 va))) (l1 va)) ≡ true
    → (unmap_4k root va m).0 ≡ true
unfolding unmap_4k
unmap_succeeds root va m h g = elim (Bool-cases (leaf_pte root va m == 0)) [
  | inl e ↦ rw (unmap_4k, e) refl
  | inr e ↦ let walk = last_table-points root va m h g in rw (unmap_4k, e, walk) refl
]

write-unmaps :
    (root va t : ℕ) (m m' : Tables) (e : ℕ)
    → Walked root va m t m'
    → (unmap_4k root va (pte_write t (l0 va) e m')).0 ≡ true
unfolding pte_write
write-unmaps root va t m m' e w =
    unmap_succeeds root va (pte_write t (l0 va) e m')
      (ground (
        arith,
        w.up,
        w.down,
        w.end,
        w.tree.top,
        w.tree.middles (l2 va),
        w.tree.lasts (table_of (m'.mem root (l2 va))) (l1 va),
      ))
      (ground (
        arith,
        w.up,
        w.down,
        w.end,
        w.tree.top,
        w.tree.middles (l2 va),
        w.tree.lasts (table_of (m'.mem root (l2 va))) (l1 va),
      ))

map_new-unmaps :
    (root va paddr flags : ℕ) (ρ : Role) (m : Tables)
    → IsTree ρ root m
    → (map_new root va paddr flags m).0 ≡ true
    → (unmap_4k root va (map_new root va paddr flags m).1).0 ≡ true
unfolding map_new
map_new-unmaps root va paddr flags ρ m v = go (last_table root va m) (last_table-Walk root va ρ m v)
  where
    written :
        (t : ℕ) (m' : Tables)
        → Walked root va m t m'
        → (unmap_4k root va (pte_write t (l0 va) (pte paddr (with_u flags)) m')).0 ≡ true
    written t m' w = write-unmaps root va t m m' (pte paddr (with_u flags)) w

    go :
        (r : Option ℕ × Tables)
        → Walk root va m r
        → let x : Bool × Tables = elim r.0 [
          | none ↦ (false, r.1)
          | some t ↦
              if is_valid (r.1.mem t (l0 va))
              then (false, r.1)
              else (true, pte_write t (l0 va) (pte paddr (with_u flags)) r.1)
        ] in
          x.0 ≡ true → (unmap_4k root va x.1).0 ≡ true
    go (none, m') w = λ h. ground (arith, h)
    go (some t, m') w = elim (Bool-cases (is_valid (m'.mem t (l0 va)))) [
      | inl e ↦ rw e (λ h. ground (arith, h))
      | inr e ↦ rw e (λ _. written t m' w)
    ]

map_user_page-unmaps :
    (in_range : ℕ → Bool) (root va paddr flags : ℕ) (ρ : Role) (m : Tables)
    → IsTree ρ root m
    → (map_user_page in_range root va paddr flags m).0 ≡ true
    → (unmap_4k root va (map_user_page in_range root va paddr flags m).1).0 ≡ true
unfolding map_user_page
map_user_page-unmaps in_range root va paddr flags ρ m v =
    guarded (not (ltb va user_va_limit)) (not (paddr % 4096 == 0)) (not (in_range paddr))
      (map_new root va paddr flags m) (map_new-unmaps root va paddr flags ρ m v)
  where
    guarded :
        (a b c : Bool) (r : Bool × Tables)
        → (r.0 ≡ true → (unmap_4k root va r.1).0 ≡ true)
        → let x : Bool × Tables =
            if a then (false, m) else if b then (false, m) else if c then (false, m) else r in
          x.0 ≡ true → (unmap_4k root va x.1).0 ≡ true
    guarded true b c r h e = ground (arith, e)
    guarded false true c r h e = ground (arith, e)
    guarded false false true r h e = ground (arith, e)
    guarded false false false r h e = h e

-- Where the tables form a tree and the flags have the valid bit, after a successful
-- map_user_page the page resolves to the new entry, unmap_4k of it succeeds, and then the page
-- resolves to nothing and every other address to what it did before.
pub map_unmap :
    (in_range : ℕ → Bool) (root va paddr flags q : ℕ) (ρ : Role) (m : Tables)
    → IsTree ρ root m
    → flags % 2 ≡ 1
    → (map_user_page in_range root va paddr flags m).0 ≡ true
    → let mapped = (map_user_page in_range root va paddr flags m).1 in
      let r = unmap_4k root va mapped in
      (leaf_pte root va mapped ≡ pte paddr (with_u flags))
      × (r.0 ≡ true)
      × (leaf_pte root q r.1 ≡ (if same_page q va then 0 else leaf_pte root q m))
map_unmap in_range root va paddr flags q ρ m v odd done =
    let (tree, changed) = map_user_page-Changes in_range root va paddr flags ρ m v odd in
    let (_, undone) =
      unmap_4k-Changes root va tree.0 (map_user_page in_range root va paddr flags m).1 tree.1 in
    let gone = map_user_page-unmaps in_range root va paddr flags ρ m v done in
    (ground (arith, changed va, done), gone, ground (arith, undone q, changed q, done, gone))

leaf_pte-empty :
    (root va t : ℕ) (m m' : Tables)
    → Walked root va m t m'
    → is_valid (m'.mem t (l0 va)) ≡ false
    → leaf_pte root va m ≡ 0
unfolding leaf_pte
leaf_pte-empty root va t m m' w e = sym (w.keeps va) ∙ ground (arith, w.up, w.down, w.end, e)

map_new-leaf_pte :
    (root va paddr flags : ℕ) (ρ : Role) (m : Tables)
    → IsTree ρ root m
    → (map_new root va paddr flags m).0 ≡ true
    → leaf_pte root va m ≡ 0
unfolding map_new
map_new-leaf_pte root va paddr flags ρ m v =
    go (last_table root va m) (last_table-Walk root va ρ m v)
  where
    go :
        (r : Option ℕ × Tables)
        → Walk root va m r
        → let x : Bool × Tables = elim r.0 [
          | none ↦ (false, r.1)
          | some t ↦
              if is_valid (r.1.mem t (l0 va))
              then (false, r.1)
              else (true, pte_write t (l0 va) (pte paddr (with_u flags)) r.1)
        ] in
          x.0 ≡ true → leaf_pte root va m ≡ 0
    go (none, m') w = λ h. ground (arith, h)
    go (some t, m') w = elim (Bool-cases (is_valid (m'.mem t (l0 va)))) [
      | inl e ↦ rw e (λ h. ground (arith, h))
      | inr e ↦ λ _. leaf_pte-empty root va t m m' w e
    ]

-- Where the tables form a tree and map_user_page succeeds, the address resolved to nothing
-- before and is a user address, and the page is aligned and in the range of the allocator.
pub map_user_page-guards :
    (in_range : ℕ → Bool) (root va paddr flags : ℕ) (ρ : Role) (m : Tables)
    → IsTree ρ root m
    → (map_user_page in_range root va paddr flags m).0 ≡ true
    → (leaf_pte root va m ≡ 0) × (va < user_va_limit) × (paddr % 4096 ≡ 0) × (in_range paddr ≡ true)
unfolding map_user_page
map_user_page-guards in_range root va paddr flags ρ m v h =
    ground (arith, h, map_new-leaf_pte root va paddr flags ρ m v)
