-- ===== src/Kernel.antt =====
-- The kernel's global state: the process table and the four registries, each a `static SpinLock` in
-- the source (kernel/src/process.rs, shm.rs, pages.rs, services.rs, device.rs), and the store that
-- the page allocator and the page tables live in. An operation takes each lock in turn; here it runs
-- alone from its first line to its last, as a system call on one core does.
use ignium.Memory.{Memory}
use ignium.Process.{CapError, Cap, proc, page, cap_errno, ProcessTable, wrong_type, shm}
use ignium.Base.{ℕ, Bool, Option, List, Result, ok, err, if◌then◌else◌, Op, is_ok}

pub record SharedPage : Type 0 where
  pub id : ℕ
  pub paddr : ℕ
  -- The two owners, each a process and the slot that it holds the page by.
  pub owner_a : ℕ
  pub slot_a : ℕ
  pub owner_b : ℕ
  pub slot_b : ℕ

pub record ShmTable : Type 0 where
  pub shms : List SharedPage
  pub free : List ℕ

pub record PageRecord : Type 0 where
  pub id : ℕ
  pub paddr : ℕ
  pub owner : ℕ
  pub map_va : Option ℕ

pub record PageTable : Type 0 where
  pub pages : List PageRecord
  pub free : List ℕ

pub record ServiceEntry : Type 0 where
  pub id : ℕ
  pub pid : ℕ

-- A claimed device: the process and the address that it is mapped at.
pub record Claim : Type 0 where
  pub owner : ℕ
  pub va : ℕ

pub record Kernel (mem : Memory) : Type 0 where
  pub procs : ProcessTable
  pub shms : ShmTable
  pub pages : PageTable
  pub services : ℕ → Option ServiceEntry
  pub devices : ℕ → Option Claim
  -- `board::uart_base()`.
  pub uart_base : ℕ
  pub store : mem.Store

-- A kernel operation, which may return an errno.
abbrev pub K : Memory → Type 0 → Type 0
K mem A = Op (Kernel mem) ℕ A

module _ {mem : Memory} where
  -- Runs an operation of the allocator or of the page tables.
  abbrev pub on_store : {A : Type 0} → (mem.Store → A × mem.Store) → Kernel mem → A × Kernel mem
  on_store f k = let r = f k.store in (r.0, record k { store = r.1 })

  -- `.ok()`: the result is thrown away.
  abbrev pub ignoring : {A : Type 0} → (mem.Store → A × mem.Store) → Kernel mem → Kernel mem
  ignoring f k = record k { store = (f k.store).1 }

  -- `if m().is_err() { undo(); return Err(e); }`
  unfoldable pub try_or :
      (mem.Store → Bool × mem.Store) → (Kernel mem → Kernel mem) → ℕ → K mem (Unit {0})
  try_or m undo e k = let r = on_store m k in if r.0 then (ok tt, r.1) else (err e, undo r.1)

  -- An operation of the process table whose result is read.
  abbrev pub on_procs :
      (ProcessTable → Result (Unit {0}) CapError × ProcessTable) → Kernel mem → Bool × Kernel mem
  on_procs f k = let r = f k.procs in (is_ok r.0, record k { procs = r.1 })

-- A capability error becomes an errno.
abbrev pub cap_result {ℓ} : {A : Type ℓ} → Result A CapError → Result A ℕ
cap_result (ok a) = ok a
cap_result (err e) = err (cap_errno e)

-- The capability must be an IPC permission; any other kind is an error of type.
abbrev pub as_proc : Result Cap CapError → Result ℕ ℕ
as_proc (ok (proc p)) = ok p
as_proc (ok (shm id)) = err (cap_errno wrong_type)
as_proc (ok (page id)) = err (cap_errno wrong_type)
as_proc (err e) = err (cap_errno e)

abbrev pub as_page : Result Cap CapError → Result ℕ ℕ
as_page (ok (page id)) = ok id
as_page (ok (proc p)) = err (cap_errno wrong_type)
as_page (ok (shm id)) = err (cap_errno wrong_type)
as_page (err e) = err (cap_errno e)
