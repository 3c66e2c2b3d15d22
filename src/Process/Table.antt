-- ===== src/Process/Table.antt =====
-- The process table's own invariant, and the life of a process in it (kernel/src/process.rs: `create`
-- after the root table is built, and the locked step of `destroy`).
use ignium.Process.{put, grant_typed_cap, clear_cap}
use ignium.Abi.{usize_max}
use ignium.Process.Caps.{fresh-id, next_slot, cap_at, insert-pid, find-eq-some, find-insert}
use ignium.Base.{
  ℕ, List, get_elem?, ◌≡◌, some, ◌<◌, arith, length, get_elem?-push, get_elem?-bound, length-append,
  ◌∷◌, if◌then◌else◌, contains, get_elem?-set, get_elem?-total, length-set, true, Distinct, ◌≤◌,
  ◌≢◌, refl, false, ◌||◌, Option, none, [], ◌⊎◌, inl, inr, leb, update, Option-cases, List-cases,
  get_elem?-end, contains-push, Distinct-push, Bool-cases,
}
use ignium.Process.{
  insert, ProcessTable, live_count, Process, max_processes, fresh, pid_root, retire, find, no_caps,
  proc, shm, page, cap_duplicate, write_slot, Cap, max_caps,
}

-- A slot carries its own index, or `usize::MAX` exactly when it is queued for reuse; the queue names
-- slots of the table, each once; the table has at most `MAX_PROCESSES` slots.
pub record IsValid (t : ProcessTable) : Type 0 where
  pub ids :
      (i : ℕ) (p : Process)
      → get_elem? t.slots i ≡ some p
      → p.id ≡ (if contains t.free i then usize_max else i)
  pub in_range : (i : ℕ) → contains t.free i ≡ true → i < length t.slots
  pub distinct : Distinct t.free
  pub small : length t.slots ≤ max_processes

insert_cases :
    (t : ProcessTable) (root : ℕ) (free : List ℕ)
    → t.free ≡ free
    → IsValid t
    → live_count t < max_processes
    → IsValid (insert t root).1
unfolding insert live_count
insert_cases t root [] e v h = record {
  ids = λ i p g. ground (
    arith,
    e,
    fresh-id (length t.slots) root,
    get_elem?-push t.slots i (fresh (length t.slots) root),
    v.ids i p,
    get_elem?-bound t.slots i {v = p},
  );
  in_range = λ i g. ground (arith, e);
  distinct = ground (arith, e);
  small = ground (arith, e, length-append t.slots (fresh (length t.slots) root ∷ []));
}
insert_cases t root (idx ∷ rest) e v h = record {
  ids = λ i p g. ground (
    arith,
    e,
    fresh-id idx root,
    get_elem?-set t.slots idx i (fresh idx root),
    v.ids i p,
    v.distinct,
    get_elem?-total t.slots i,
  );
  in_range = λ i g. ground (arith, e, v.in_range i, length-set t.slots idx (fresh idx root));
  distinct = ground (arith, e, v.distinct);
  small = ground (arith, e, v.small, length-set t.slots idx (fresh idx root));
}

-- Creating a process below the limit on live processes keeps the process table well formed.
pub insert-IsValid :
    (t : ProcessTable) (root : ℕ)
    → IsValid t
    → live_count t < max_processes
    → IsValid (insert t root).1
insert-IsValid t root v h = insert_cases t root t.free refl v h

pub next_slot_in_range :
    (t : ProcessTable) → IsValid t → (t.free ≡ []) ⊎ (next_slot t < length t.slots)
unfolding next_slot
next_slot_in_range t v = elim (List-cases t.free) [
  | inl e ↦ inl e
  | inr (idx, rest, e) ↦ inr (ground (arith, e, v.in_range idx))
]

-- The slot that the next process takes belongs to no live process.
pub find-next_slot : (t : ProcessTable) → IsValid t → find t.slots (next_slot t) ≡ none
unfolding next_slot find
find-next_slot t v = elim (List-cases t.free) [
  | inl e ↦ ground (arith, e, get_elem?-end t.slots (length t.slots))
  | inr (idx, rest, e) ↦
      let (p, g) = get_elem?-total t.slots idx (ground (arith, e, v.in_range idx)) in
      ground (arith, e, g, v.ids idx p, v.in_range idx, v.small)
]

-- In a well-formed table a new process has a slot that no live process had, the root table it
-- was given and no capability in any slot, and every other slot finds the process that it found
-- before.
pub insert-isolated :
    (t : ProcessTable) (root q : ℕ)
    → IsValid t
    → let (pid, t') = insert t root in
      (find t.slots pid ≡ none)
      × (pid_root t' pid ≡ some root)
      × (cap_at t' pid q ≡ none)
      × (pid ≢ q → find t'.slots q ≡ find t.slots q)
unfolding pid_root cap_at fresh
insert-isolated t root q v = (
  rw (insert-pid t root) (find-next_slot t v),
  ground (arith, insert-pid t root, find-insert t root (insert t root).0 (next_slot_in_range t v)),
  ground (arith, insert-pid t root, find-insert t root (insert t root).0 (next_slot_in_range t v)),
  λ e. ground (arith, insert-pid t root, find-insert t root q (next_slot_in_range t v)),
)

retire_live :
    (t : ProcessTable) (pid : ℕ) (p : Process)
    → find t.slots pid ≡ some p
    → IsValid t
    → IsValid (retire t pid).1
unfolding retire
retire_live t pid p e v =
    let (g, own) = find-eq-some t.slots pid e in
    let dead : Process = record p { id = usize_max; caps = no_caps } in
    record {
      ids = λ i x h.
          ground
            (arith, e, get_elem?-set t.slots pid i dead, v.ids i x, contains-push t.free pid i);
      in_range = λ i h. ground (
        arith,
        e,
        g,
        v.in_range i,
        contains-push t.free pid i,
        length-set t.slots pid dead,
        get_elem?-bound t.slots pid {v = p},
      );
      distinct =
          rw (e, retire)
            (Distinct-push t.free pid
              (ground (arith, g, own, v.ids pid p, v.small, get_elem?-bound t.slots pid {v = p}))
              v.distinct);
      small = ground (arith, e, v.small, length-set t.slots pid dead);
    }

-- Destroying a process, also one that does not exist, keeps the process table well formed.
pub retire-IsValid : (t : ProcessTable) (pid : ℕ) → IsValid t → IsValid (retire t pid).1
unfolding retire
retire-IsValid t pid v = elim (Option-cases (find t.slots pid)) [
  | inl e ↦ rw (e, retire) v
  | inr (p, e) ↦ retire_live t pid p e v
]

-- Writing the capabilities of a live process keeps the table well formed.
pub put-IsValid :
    (t : ProcessTable) (pid : ℕ) (p p' : Process)
    → find t.slots pid ≡ some p
    → p'.id ≡ p.id
    → IsValid t
    → IsValid (put t pid p')
unfolding put
put-IsValid t pid p p' h e v =
    let (g, own) = find-eq-some t.slots pid h in
    record {
      ids = λ i x f. ground (arith, get_elem?-set t.slots pid i p', v.ids i x, v.ids pid p);
      in_range = λ i f. ground (arith, v.in_range i, length-set t.slots pid p');
      distinct = v.distinct;
      small = ground (arith, v.small, length-set t.slots pid p');
    }

pub write_slot-IsValid :
    (t : ProcessTable) (pid slot : ℕ) (value : Option Cap)
    → IsValid t
    → IsValid (write_slot t pid slot value).1
unfolding write_slot
write_slot-IsValid t pid slot value v = elim (Bool-cases (leb max_caps slot)) [
  | inl b ↦ rw (b, write_slot) v
  | inr b ↦ elim (Option-cases (find t.slots pid)) [
    | inl e ↦ rw (b, e, write_slot) v
    | inr (p, e) ↦
        rw (b, e, write_slot)
          (put-IsValid t pid p (record p { caps = update p.caps slot value }) e refl v)
  ]
]

pub grant_typed_cap-IsValid :
    (t : ProcessTable) (pid slot : ℕ) (cap : Cap)
    → IsValid t
    → IsValid (grant_typed_cap t pid slot cap).1
unfolding grant_typed_cap
grant_typed_cap-IsValid t pid slot cap v = write_slot-IsValid t pid slot (some cap) v

pub clear_cap-IsValid :
    (t : ProcessTable) (pid slot : ℕ) → IsValid t → IsValid (clear_cap t pid slot).1
unfolding clear_cap
clear_cap-IsValid t pid slot v = write_slot-IsValid t pid slot none v

pub cap_duplicate-IsValid :
    (t : ProcessTable) (pid from to : ℕ) → IsValid t → IsValid (cap_duplicate t pid from to).1
unfolding cap_duplicate
cap_duplicate-IsValid t pid from to v = elim (Bool-cases (leb max_caps from || leb max_caps to)) [
  | inl b ↦ rw (b, cap_duplicate) v
  | inr b ↦ elim (Option-cases (find t.slots pid)) [
    | inl e ↦ rw (b, e, cap_duplicate) v
    | inr (p, e) ↦ copied b p e (p.caps from) refl
  ]
]
  where
    copied :
        leb max_caps from || leb max_caps to ≡ false
        → (p : Process) → find t.slots pid ≡ some p
        → (c : Option Cap) → p.caps from ≡ c
        → IsValid (cap_duplicate t pid from to).1
    copied b p e none f = rw (b, e, f, cap_duplicate) v
    copied b p e (some (page id)) f = rw (b, e, f, cap_duplicate) v
    copied b p e (some (proc id)) f =
        rw (b, e, f, cap_duplicate)
          (put-IsValid t pid p (record p { caps = update p.caps to (some (proc id)) }) e refl v)
    copied b p e (some (shm id)) f =
        rw (b, e, f, cap_duplicate)
          (put-IsValid t pid p (record p { caps = update p.caps to (some (shm id)) }) e refl v)

pub find_small :
    (t : ProcessTable) (pid : ℕ) {p : Process}
    → IsValid t
    → find t.slots pid ≡ some p
    → pid < usize_max
find_small t pid {p} v e =
    let (g, own) = find-eq-some t.slots pid e in
    ground (arith, v.small, get_elem?-bound t.slots pid {v = p})
