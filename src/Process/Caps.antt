-- ===== src/Process/Caps.antt =====
-- The capability space of a process table (kernel/src/process.rs): which capability each slot of each
-- live process holds, and what each operation does to it.
use ignium.Base.{
  ℕ, ◌≡◌, ◌<◌, refl, Option, none, some, List, [], ◌∷◌, err, ◌==◌, ◌&&◌, if◌then◌else◌, length,
  get_elem?, set, get_elem?-set, get_elem?-push, arith, Option-cases, inl, inr, ◌⊎◌, is_ok,
  get_elem?-total, update, ◌++◌,
}
use ignium.Abi.{usize_max}
use ignium.Process.{
  Cap, CapError, Process, ProcessTable, find, put, insert, retire, grant_typed_cap, clear_cap,
  cap_duplicate, write_slot, no_caps, fresh,
}

abbrev caps_of : Option Process → ℕ → Option Cap
caps_of none slot = none
caps_of (some p) slot = p.caps slot

-- The capability that `slot` of the process `pid` holds; a dead process holds none.
unfoldable pub cap_at : ProcessTable → ℕ → ℕ → Option Cap
cap_at t pid slot = caps_of (find t.slots pid) slot

pub find-put :
    (t : ProcessTable) (pid q : ℕ) (p p' : Process)
    → find t.slots pid ≡ some p
    → p'.id ≡ p.id
    → find (put t pid p').slots q ≡ (if pid == q then some p' else find t.slots q)
unfolding find put
find-put t pid q p p' h e = ground (arith, get_elem?-set t.slots pid q p')

pub fresh-id : (pid root : ℕ) → (fresh pid root).id ≡ pid
unfolding fresh
fresh-id pid root = refl

find_push :
    (slots : List Process) (p : Process) (q : ℕ)
    → p.id ≡ length slots
    → find (slots ++ p ∷ []) q ≡ (if p.id == q then some p else find slots q)
unfolding find
find_push slots p q h = ground (arith, get_elem?-push slots q p)

find-set :
    (slots : List Process) (p : Process) (q : ℕ)
    → p.id < length slots
    → find (set slots p.id p) q ≡ (if p.id == q then some p else find slots q)
unfolding find
find-set slots p q h = ground (arith, get_elem?-set slots p.id q p, get_elem?-total slots p.id h)

-- The slot that `create` takes: the first freed one, or a new one at the end.
unfoldable pub next_slot : ProcessTable → ℕ
next_slot t = elim t.free [ [] ↦ length t.slots | idx ∷ rest ↦ idx ]

pub insert-pid : (t : ProcessTable) (root : ℕ) → (insert t root).0 ≡ next_slot t
unfolding insert next_slot
insert-pid t root = ground arith

find-insert_cases :
    (t : ProcessTable) (root q : ℕ) (free : List ℕ)
    → t.free ≡ free
    → (free ≡ []) ⊎ (next_slot t < length t.slots)
    → find (insert t root).1.slots q
      ≡ (if next_slot t == q then some (fresh q root) else find t.slots q)
unfolding next_slot insert
find-insert_cases t root q [] e h =
    ground
      (arith, fresh-id (length t.slots) root, find_push t.slots (fresh (length t.slots) root) q)
find-insert_cases t root q (idx ∷ rest) e h =
    ground (arith, fresh-id idx root, find-set t.slots (fresh idx root) q)

pub find-retire :
    (t : ProcessTable) (pid q : ℕ)
    → pid < usize_max
    → find (retire t pid).1.slots q ≡ (if pid == q then none else find t.slots q)
unfolding find retire
find-retire t pid q h = elim (Option-cases (find t.slots pid)) [
  | inl e ↦ ground (arith, e)
  | inr (p, e) ↦
      ground (arith, e, get_elem?-set t.slots pid q (record p { id = usize_max; caps = no_caps }))
]

pub cap_at-write_slot :
    (t : ProcessTable) (pid slot q s : ℕ) (value : Option Cap)
    → cap_at (write_slot t pid slot value).1 q s ≡ (
        if is_ok (write_slot t pid slot value).0 && pid == q && slot == s
        then value
        else cap_at t q s)
unfolding cap_at write_slot
cap_at-write_slot t pid slot q s value = elim (Option-cases (find t.slots pid)) [
  | inl e ↦ ground (arith, e)
  | inr (p, e) ↦
      ground (arith, e, find-put t pid q p (record p { caps = update p.caps slot value }) e)
]

pub cap_at-cap_duplicate :
    (t : ProcessTable) (pid from to q s : ℕ)
    → cap_at (cap_duplicate t pid from to).1 q s ≡ (
        if is_ok (cap_duplicate t pid from to).0 && pid == q && to == s
        then cap_at t pid from
        else cap_at t q s)
unfolding cap_at cap_duplicate
cap_at-cap_duplicate t pid from to q s = elim (Option-cases (find t.slots pid)) [
  | inl e ↦ ground (arith, e)
  | inr (p, e) ↦ elim (Option-cases (p.caps from)) [
    | inl f ↦ ground (arith, e, f)
    | inr (c, f) ↦
        ground (arith, e, f, find-put t pid q p (record p { caps = update p.caps to (some c) }) e)
  ]
]

-- A freed slot that the table will use again lies in the table.
pub find-insert :
    (t : ProcessTable) (root q : ℕ)
    → (t.free ≡ []) ⊎ (next_slot t < length t.slots)
    → find (insert t root).1.slots q
      ≡ (if next_slot t == q then some (fresh q root) else find t.slots q)
find-insert t root q h = find-insert_cases t root q t.free refl h

pub find-eq-some :
    (slots : List Process) (pid : ℕ) {p : Process}
    → find slots pid ≡ some p
    → (get_elem? slots pid ≡ some p) × (p.id ≡ pid)
unfolding find
find-eq-some slots pid h = ground arith

-- A refused write leaves the table as it was.
pub grant_typed_cap-err :
    (t : ProcessTable) (pid slot : ℕ) (cap : Cap) {e : CapError}
    → (grant_typed_cap t pid slot cap).0 ≡ err e
    → (grant_typed_cap t pid slot cap).1 ≡ t
unfolding grant_typed_cap write_slot
grant_typed_cap-err t pid slot cap h = ground arith

pub cap_at-grant :
    (t : ProcessTable) (pid slot q s : ℕ) (cap : Cap)
    → cap_at (grant_typed_cap t pid slot cap).1 q s ≡ (
        if is_ok (grant_typed_cap t pid slot cap).0 && pid == q && slot == s
        then some cap
        else cap_at t q s)
unfolding grant_typed_cap
cap_at-grant t pid slot q s cap = cap_at-write_slot t pid slot q s (some cap)

pub cap_at-clear :
    (t : ProcessTable) (pid slot q s : ℕ)
    → cap_at (clear_cap t pid slot).1 q s
      ≡ (if is_ok (clear_cap t pid slot).0 && pid == q && slot == s then none else cap_at t q s)
unfolding clear_cap
cap_at-clear t pid slot q s = cap_at-write_slot t pid slot q s none

pub cap_at-retire :
    (t : ProcessTable) (pid q s : ℕ)
    → pid < usize_max
    → cap_at (retire t pid).1 q s ≡ (if pid == q then none else cap_at t q s)
unfolding cap_at
cap_at-retire t pid q s h = ground (arith, find-retire t pid q h)

pub retire-absent : (t : ProcessTable) (pid : ℕ) → (retire t pid).0 ≡ none → (retire t pid).1 ≡ t
unfolding retire
retire-absent t pid h = ground arith
