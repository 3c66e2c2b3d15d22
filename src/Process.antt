-- ===== src/Process.antt =====
-- The process table and its capability slots (kernel/src/process.rs). The lock of the table is held
-- for the whole of each operation here, so each is one step. `Vec` is a list, the `VecDeque` of free
-- slots a list with its front first, and `[Option<Cap>; MAX_CAPS]` a function of the slot.
pub mod Caps
pub mod Table
use ignium.Base.{
  ℕ, ◌≡◌, ◌-◌, Bool, true, false, Option, none, some, List, [], ◌∷◌, ◌++◌, Result, ok, err, ◌==◌,
  ◌||◌, leb, if◌then◌else◌, length, get_elem?, set, update,
}
use ignium.Abi.{usize_max, sys_err_einval, sys_err_eacces, sys_err_enoent}

abbrev pub max_processes : ℕ
max_processes = 32

abbrev pub max_caps : ℕ
max_caps = 8

pub data Cap : Type 0 where
  proc : ℕ → Cap
  shm : ℕ → Cap
  page : ℕ → Cap

pub record Process : Type 0 where
  pub id : ℕ
  pub root : ℕ
  pub caps : ℕ → Option Cap

pub record ProcessTable : Type 0 where
  pub slots : List Process
  pub free : List ℕ

pub data CapError : Type 0 where
  invalid_slot not_found wrong_type shm_not_found page_not_found : CapError

unfoldable pub cap_errno : CapError → ℕ
cap_errno invalid_slot = sys_err_einval
cap_errno wrong_type = sys_err_einval
cap_errno not_found = sys_err_eacces
cap_errno shm_not_found = sys_err_enoent
cap_errno page_not_found = sys_err_enoent

abbrev pub no_caps : ℕ → Option Cap
no_caps slot = none

abbrev keep_if : Bool → Process → Option Process
keep_if true p = some p
keep_if false p = none

abbrev with_id : ℕ → Option Process → Option Process
with_id pid none = none
with_id pid (some p) = keep_if (p.id == pid) p

-- `t.slots.get(pid).filter(|p| p.id == pid)`
unfoldable pub find : List Process → ℕ → Option Process
find slots pid = with_id pid (get_elem? slots pid)

-- Writing back through `get_mut`.
unfoldable pub put : ProcessTable → ℕ → Process → ProcessTable
put t pid p = record t { slots = set t.slots pid p }

-- A process that holds no capability.
unfoldable pub fresh : ℕ → ℕ → Process
fresh pid root = record { id = pid; root = root; caps = no_caps }

unfoldable pub live_count : ProcessTable → ℕ
live_count t = length t.slots - length t.free

-- `create` once `create_user_root` has returned `root`: a freed slot is used again, first freed first.
unfoldable pub insert : ProcessTable → ℕ → ℕ × ProcessTable
insert t root = elim t.free [
  | [] ↦ let idx = length t.slots in (idx, record t { slots = t.slots ++ fresh idx root ∷ [] })
  | idx ∷ rest ↦ (idx, record { slots = set t.slots idx (fresh idx root); free = rest })
]

-- The step of `destroy` that makes a slot invalid and queues it, and returns its root.
unfoldable pub retire : ProcessTable → ℕ → Option ℕ × ProcessTable
retire t pid = elim (find t.slots pid) [
  | none ↦ (none, t)
  | some p ↦ (
    some p.root,
    record {
      slots = set t.slots pid (record p { id = usize_max; caps = no_caps });
      free = t.free ++ pid ∷ [];
    },
  )
]

unfoldable pub pid_root : ProcessTable → ℕ → Option ℕ
pid_root t pid = elim (find t.slots pid) [ none ↦ none | some p ↦ some p.root ]

abbrev slot_cap : Option Cap → Result Cap CapError
slot_cap none = err not_found
slot_cap (some c) = ok c

unfoldable pub cap_target : ProcessTable → ℕ → ℕ → Result Cap CapError
cap_target t pid slot =
    if leb max_caps slot
    then err invalid_slot
    else elim (find t.slots pid) [ none ↦ err not_found | some p ↦ slot_cap (p.caps slot) ]

-- Writing one slot of a live process.
unfoldable pub write_slot :
    ProcessTable → ℕ → ℕ → Option Cap → Result (Unit {0}) CapError × ProcessTable
unfolding put
write_slot t pid slot value =
    if leb max_caps slot then (err invalid_slot, t) else elim (find t.slots pid) [
      | none ↦ (err not_found, t)
      | some p ↦ (ok tt, put t pid (record p { caps = update p.caps slot value }))
    ]

unfoldable pub grant_typed_cap :
    ProcessTable → ℕ → ℕ → Cap → Result (Unit {0}) CapError × ProcessTable
unfolding write_slot
grant_typed_cap t pid slot cap = write_slot t pid slot (some cap)

unfoldable pub grant_cap : ProcessTable → ℕ → ℕ → ℕ → Result (Unit {0}) CapError × ProcessTable
unfolding grant_typed_cap
grant_cap t pid slot target = grant_typed_cap t pid slot (proc target)

unfoldable pub grant_shm_cap : ProcessTable → ℕ → ℕ → ℕ → Result (Unit {0}) CapError × ProcessTable
unfolding grant_typed_cap
grant_shm_cap t pid slot id = grant_typed_cap t pid slot (shm id)

unfoldable pub clear_cap : ProcessTable → ℕ → ℕ → Result (Unit {0}) CapError × ProcessTable
unfolding write_slot
clear_cap t pid slot = write_slot t pid slot none

abbrev pub is_page : Cap → Bool
is_page (page id) = true
is_page _ = false

-- The source slot's content, if it may be copied.
abbrev pub copyable : Option Cap → Result Cap CapError
copyable none = err not_found
copyable (some c) = if is_page c then err wrong_type else ok c

unfoldable pub cap_duplicate : ProcessTable → ℕ → ℕ → ℕ → Result (Unit {0}) CapError × ProcessTable
unfolding put
cap_duplicate t pid from to =
    if leb max_caps from || leb max_caps to
    then (err invalid_slot, t)
    else elim (find t.slots pid) [
      | none ↦ (err not_found, t)
      | some p ↦ elim (copyable (p.caps from)) [
        | err e ↦ (err e, t)
        | ok c ↦ (ok tt, put t pid (record p { caps = update p.caps to (some c) }))
      ]
    ]
