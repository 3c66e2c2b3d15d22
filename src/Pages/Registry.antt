-- ===== src/Pages/Registry.antt =====
-- The slots of the page registry (kernel/src/pages.rs): what looking up an index gives after each
-- change of the table.
use ignium.Abi.{usize_max}
use ignium.Kernel.{PageRecord, PageTable}
use ignium.Base.{
  ℕ, ◌≤◌, ◌<◌, ◌≡◌, refl, true, none, some, List, [], ◌∷◌, arith, ◌==◌, if◌then◌else◌, length,
  get_elem?, get_elem?-set, contains, get_elem?-end, Distinct, length-set, get_elem?-bound,
  get_elem?-push, contains-push, Distinct-push, length-append, get_elem?-total,
}
use ignium.Pages.{find, insert, retire, put, max_pages}

-- A record carries its index, or `usize::MAX` exactly when the index is queued for reuse; the queue
-- names indices of the table, each once; there are at most `MAX_PAGES` records.
pub record Registered (t : PageTable) : Type 0 where
  pub ids :
      (i : ℕ) (r : PageRecord)
      → get_elem? t.pages i ≡ some r
      → r.id ≡ (if contains t.free i then usize_max else i)
  pub in_range : (i : ℕ) → contains t.free i ≡ true → i < length t.pages
  pub distinct : Distinct t.free
  pub small : length t.pages ≤ max_pages

pub find-put :
    (t : PageTable) (id q : ℕ) (r r' : PageRecord)
    → find t.pages id ≡ some r
    → r'.id ≡ r.id
    → find (put t id r').pages q ≡ (if id == q then some r' else find t.pages q)
unfolding find put
find-put t id q r r' h e = ground (arith, get_elem?-set t.pages id q r')

pub find-retire :
    (t : PageTable) (id q : ℕ) (r : PageRecord)
    → Registered t
    → find t.pages id ≡ some r
    → find (retire t id r).pages q ≡ (if id == q then none else find t.pages q)
unfolding find retire
find-retire t id q r v h = ground (
  arith,
  get_elem?-set t.pages id q (record r { id = usize_max; map_va = none }),
  v.small,
  get_elem?-bound t.pages id {v = r},
)

pub find-eq-some :
    (pages : List PageRecord) (id : ℕ) {r : PageRecord}
    → find pages id ≡ some r
    → (get_elem? pages id ≡ some r) × (r.id ≡ id)
unfolding find
find-eq-some pages id h = ground arith

pub put-Registered :
    (t : PageTable) (id : ℕ) (r r' : PageRecord)
    → find t.pages id ≡ some r
    → r'.id ≡ r.id
    → Registered t
    → Registered (put t id r')
unfolding put
put-Registered t id r r' h e v =
    let (g, own) = find-eq-some t.pages id h in
    record {
      ids = λ i x f. ground (arith, get_elem?-set t.pages id i r', v.ids i x, v.ids id r);
      in_range = λ i f. ground (arith, v.in_range i, length-set t.pages id r');
      distinct = v.distinct;
      small = ground (arith, v.small, length-set t.pages id r');
    }

pub retire-Registered :
    (t : PageTable) (id : ℕ) (r : PageRecord)
    → find t.pages id ≡ some r
    → Registered t
    → Registered (retire t id r)
unfolding retire
retire-Registered t id r h v =
    let (g, own) = find-eq-some t.pages id h in
    let dead : PageRecord = record r { id = usize_max; map_va = none } in
    record {
      ids = λ i x f.
          ground (arith, get_elem?-set t.pages id i dead, v.ids i x, contains-push t.free id i);
      in_range = λ i f. ground (
        arith,
        g,
        v.in_range i,
        contains-push t.free id i,
        length-set t.pages id dead,
        get_elem?-bound t.pages id {v = r},
      );
      distinct =
          Distinct-push t.free id
            (ground (arith, g, own, v.ids id r, v.small, get_elem?-bound t.pages id {v = r}))
            v.distinct;
      small = ground (arith, v.small, length-set t.pages id dead);
    }

-- A page that `alloc` registers: its index was free, it is registered for the owner, unmapped, and no
-- other index changes.
module _ (t : PageTable) (paddr owner : ℕ) {idx : ℕ}
    (done : (insert t paddr owner).0 ≡ some idx) where
  abbrev pub entry : PageRecord
  entry = record { id = idx; paddr = paddr; owner = owner; map_va = none }

  insert_parts :
      (free : List ℕ)
      → t.free ≡ free
      → Registered t
      → (find t.pages idx ≡ none)
        × Registered (insert t paddr owner).1
        × ((q : ℕ)
            → find (insert t paddr owner).1.pages q
              ≡ (if idx == q then some entry else find t.pages q))
  unfolding insert find
  insert_parts [] e v = (
    ground (arith, get_elem?-end t.pages idx),
    record {
      ids = λ i p g.
          ground
            (arith, get_elem?-push t.pages i entry, v.ids i p, get_elem?-bound t.pages i {v = p});
      in_range = λ i g. ground arith;
      distinct = ground arith;
      small = ground (arith, length-append t.pages (entry ∷ []));
    },
    λ q. ground (arith, get_elem?-push t.pages q entry),
  )
  insert_parts (i ∷ rest) e v = (
    (let (r, g) = get_elem?-total t.pages idx (ground (arith, v.in_range idx)) in
        ground (arith, g, v.ids idx r, v.in_range idx, v.small)),
    record {
      ids = λ j p g. ground (
        arith,
        get_elem?-set t.pages idx j entry,
        v.ids j p,
        v.distinct,
        get_elem?-total t.pages j,
      );
      in_range = λ j g. ground (arith, v.in_range j, length-set t.pages idx entry);
      distinct = ground (arith, v.distinct);
      small = ground (arith, v.small, length-set t.pages idx entry);
    },
    λ q.
        ground
          (arith, v.in_range idx, get_elem?-total t.pages idx, get_elem?-set t.pages idx q entry),
  )

  pub insert-Registered :
      Registered t
      → (find t.pages idx ≡ none)
        × Registered (insert t paddr owner).1
        × ((q : ℕ)
            → find (insert t paddr owner).1.pages q
              ≡ (if idx == q then some entry else find t.pages q))
  insert-Registered v = insert_parts t.free refl v
