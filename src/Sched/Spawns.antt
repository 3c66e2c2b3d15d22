-- ===== src/Sched/Spawns.antt =====
-- New threads (kernel/src/sched.rs: `spawn`, `spawn_user`, `spawn_owned`). The addresses that the
-- linker, the heap and the page tables give are arguments; `none` is a full table, which panics.
use ignium.Base.{
  ℕ, ◌+◌, Bool, true, false, ◌||◌, Option, none, some, List, [], ◌∷◌, ◌==◌, ltb, if◌then◌else◌,
  update,
}
use ignium.Sched.{
  Scheduler, Donation, Thread, ready, running, exited, max_harts, max_threads, prio_levels,
  put_thread, enqueue, requeue_proc_threads,
}
use ignium.Sched.Switch.{trap_sepc, x_a0, x_a1}

-- What the kernel gives every thread it makes.
pub record Kernel : Type 0 where
  pub hartid : ℕ
  pub thread_entry : ℕ
  pub gp : ℕ
  pub kernel_root : ℕ

-- A place in the table: one left by a thread that exited, or a new one.
unfoldable pub claim_slot : Scheduler → Option (ℕ × Scheduler)
claim_slot s = elim s.free_slots [
  | id ∷ rest ↦ some (id, record s { free_slots = rest })
  | [] ↦ if ltb s.thread_count max_threads then some (s.thread_count, s) else none
]

unfoldable pub place_thread : ℕ → Thread → Scheduler → Scheduler
place_thread id t s =
    let s1 = record s {
      kill_requests = update s.kill_requests id false;
      thread_count = if ltb id s.thread_count then s.thread_count else s.thread_count + 1;
    } in
    enqueue id (put_thread s1 id t)

-- `prio.min(PRIO_LEVELS as u8 - 1)`
abbrev pub clamp_prio : ℕ → ℕ
clamp_prio p = if ltb p prio_levels then p else 2

unfoldable pub kernel_thread : Kernel → ℕ → ℕ → ℕ → Thread
kernel_thread k entry prio sp = record {
  prio = clamp_prio prio;
  state = ready;
  ctx = record { ra = k.thread_entry; sp = sp; s = λ i. 0 };
  frame = λ i.
      if i == trap_sepc
      then k.thread_entry
      else if i == 32
      then 288
      else if i == 1
      then sp
      else if i == 2
      then k.gp
      else 0;
  frame_valid = true;
  ctx_valid = true;
  woken = false;
  ipc_msg = none;
  ipc_wake = none;
  proc = none;
  hart = k.hartid;
  root = k.kernel_root;
  entry = entry;
  stack = true;
}

unfoldable pub spawn : Kernel → ℕ → ℕ → ℕ → Scheduler → Option (ℕ × Scheduler)
spawn k entry prio sp s = elim (claim_slot s) [
  | none ↦ none
  | some r ↦ some (r.0, place_thread r.0 (kernel_thread k entry prio sp) r.1)
]

-- What a user thread starts with: its process, the process's root, and its registers.
pub record UserStart : Type 0 where
  pub proc_id : ℕ
  pub root : ℕ
  pub entry_pc : ℕ
  pub stack_top : ℕ
  pub prio : ℕ
  pub argc : ℕ
  pub argv : ℕ

unfoldable pub user_thread : Kernel → ℕ → UserStart → Thread
user_thread k stub u = record {
  prio = clamp_prio u.prio;
  state = ready;
  ctx = record { ra = u.entry_pc; sp = u.stack_top; s = λ i. 0 };
  frame = λ i.
      if i == trap_sepc
      then u.entry_pc
      else if i == 32
      then 32
      else if i == 1
      then u.stack_top
      else if i == x_a0
      then u.argc
      else if i == x_a1
      then u.argv
      else 0;
  frame_valid = true;
  ctx_valid = false;
  woken = false;
  ipc_msg = none;
  ipc_wake = none;
  proc = some u.proc_id;
  hart = k.hartid;
  root = u.root;
  entry = stub;
  stack = false;
}

unfoldable pub spawn_user : Kernel → ℕ → UserStart → Scheduler → Option (ℕ × Scheduler)
spawn_user k stub u s = elim (claim_slot s) [
  | none ↦ none
  | some r ↦ some (r.0, place_thread r.0 (user_thread k stub u) r.1)
]

abbrev pub has_donation : List Donation → ℕ → Bool
has_donation [] proc = false
has_donation (d ∷ ds) proc = d.peer_proc == proc || has_donation ds proc

unfoldable pub spawn_owned : Kernel → ℕ → ℕ → ℕ → ℕ → Scheduler → Option (ℕ × Scheduler)
spawn_owned k entry prio sp proc_id s = elim (spawn k entry prio sp s) [
  | none ↦ none
  | some r ↦
      let s1 = put_thread r.1 r.0 (record (r.1.threads r.0) { proc = some proc_id }) in
      some
        (r.0, (if has_donation s1.donations proc_id then requeue_proc_threads proc_id s1 else s1))
]

-- The idle threads, one for each core, and the table that `init` leaves.
unfoldable pub idle_thread : Kernel → ℕ → ℕ → ℕ → Thread
idle_thread k idle_entry sp h = record {
  prio = 2;
  state = running;
  ctx = record { ra = idle_entry; sp = sp; s = λ i. 0 };
  frame = λ i. if i == trap_sepc then idle_entry else if i == 32 then 288 else 0;
  frame_valid = false;
  ctx_valid = true;
  woken = false;
  ipc_msg = none;
  ipc_wake = none;
  proc = none;
  hart = h;
  root = k.kernel_root;
  entry = idle_entry;
  stack = true;
}

-- The rows past the table's end are never read; they stand here as threads that have exited.
unfoldable pub init : Kernel → ℕ → (ℕ → ℕ) → Scheduler
init k idle_entry sps = record {
  threads = λ id.
      let t = idle_thread k idle_entry (sps id) id in
      if ltb id max_harts then t else record t { state = exited; hart = 0 };
  thread_count = max_harts;
  ready_queues = λ h l. [];
  donations = [];
  current = λ h. h;
  idle = λ h. h;
  ticks_run = λ h. 0;
  free_slots = [];
  reaper = [];
  kill_requests = λ id. false;
}
