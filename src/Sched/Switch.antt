-- ===== src/Sched/Switch.antt =====
-- Giving up a core (kernel/src/sched.rs: `switch_target`, `yield_`, `block_current`,
-- `block_user_from_trap`, `exit`, `exit_from_trap`, `set_affinity`). A core is an argument; what the
-- machine does outside the lock is the target returned; `none` for a target means that the current
-- thread goes on.
use ignium.Base.{
  ℕ, ◌+◌, Bool, true, false, Option, none, some, [], ◌∷◌, ◌++◌, ◌==◌, ltb, if◌then◌else◌, update,
  not, is_some,
}
use ignium.Ipc.{Msg}
use ignium.Sched.{
  running, blocked, exited, wake_msg, wake_err, IpcWake, Scheduler, put_thread, enqueue, pick_next,
  remove_from_ready, is_ready, is_blocked, max_harts,
}
use ignium.Sched.Donations.{revoke_donations}

-- Words of a trap frame.
abbrev pub trap_sepc : ℕ
trap_sepc = 33

abbrev pub x_a0 : ℕ
x_a0 = 9

abbrev pub x_a1 : ℕ
x_a1 = 10

-- The thread switched from, the thread switched to, the mechanism, and the root table.
pub record SwitchTarget : Type 0 where
  pub old : ℕ
  pub next : ℕ
  pub use_frame : Bool
  pub next_root : ℕ

unfoldable pub switch_target : ℕ → ℕ → Scheduler → SwitchTarget
switch_target cur next s = record {
  old = cur;
  next = next;
  use_frame = not ((s.threads next).ctx_valid);
  next_root = (s.threads next).root;
}

-- `let next = s.pick_next(h, need_ctx); s.current[h] = next`
unfoldable pub reschedule : ℕ → Bool → Scheduler → ℕ × Scheduler
reschedule h need_ctx s =
    let r = pick_next h need_ctx s in (r.0, record r.1 { current = update r.1.current h r.0 })

unfoldable pub reset_ticks : ℕ → Scheduler → Scheduler
reset_ticks h s = record s { ticks_run = update s.ticks_run h 0 }

-- The end of every way of giving up the core.
unfoldable pub switch_from : ℕ → ℕ → Scheduler → SwitchTarget × Scheduler
switch_from h cur s =
    let r = reschedule h true (reset_ticks h s) in (switch_target cur r.0 r.1, r.1)

unfoldable pub drain_reaper : Scheduler → Scheduler
drain_reaper s = record s { reaper = [] }

unfoldable pub yield_ : ℕ → Scheduler → SwitchTarget × Scheduler
yield_ h s =
    let cur = s.current h in
    let s1 = put_thread s cur (record (s.threads cur) { frame_valid = false; ctx_valid = true }) in
    switch_from h cur (enqueue cur (drain_reaper s1))

-- The IPC wake that waits is taken, and the thread goes on.
unfoldable pub take_wake : ℕ → Scheduler → Scheduler
take_wake cur s =
    revoke_donations cur
      (put_thread s cur (record (s.threads cur) { ipc_wake = none; state = running }))

unfoldable pub block_current : ℕ → Scheduler → Option SwitchTarget × Scheduler
block_current h s =
    let cur = s.current h in
    let t = s.threads cur in
    if is_some t.ipc_wake
    then (none, take_wake cur s)
    else if is_ready t.state
    then (
      none,
      (let s1 = remove_from_ready cur s in
          put_thread s1 cur (record (s1.threads cur) { state = running; woken = false })),
    )
    else if t.woken
    then (none, put_thread s cur (record t { state = running; woken = false }))
    else let r =
        switch_from h cur (
          put_thread s cur (record t { state = blocked; frame_valid = false; ctx_valid = true })) in
      (some r.0, r.1)

-- After the switch back to the thread that blocked.
unfoldable pub block_resumed : ℕ → Scheduler → Scheduler
block_resumed h s =
    let s1 = remove_from_ready (s.current h) s in
    put_thread s1 (s.current h) (record (s1.threads (s.current h)) { woken = false })

-- The words of a message from `a1` on.
unfoldable pub put_words : Msg → (ℕ → ℕ) → ℕ → ℕ
put_words (a, b, c, d, e) f =
    update (update (update (update (update f x_a1 a) (x_a1 + 1) b) (x_a1 + 2) c) (x_a1 + 3) d)
      (x_a1 + 4) e

-- `frame[FRAME_SEPC] += 4`
abbrev pub past_ecall : (ℕ → ℕ) → ℕ → ℕ
past_ecall f = update f trap_sepc (f trap_sepc + 4)

unfoldable pub apply_wake : IpcWake → (ℕ → ℕ) → ℕ → ℕ
apply_wake (wake_msg m) f = past_ecall (put_words m (update f x_a0 0))
apply_wake (wake_err code) f = past_ecall (update f x_a0 code)

-- What becomes of a system call that blocks: it returns with the live frame, or the core is switched.
pub data UserBlock : Type 0 where
  resumed : (ℕ → ℕ) → UserBlock
  switched : SwitchTarget → UserBlock

unfoldable pub block_user_from_trap : ℕ → (ℕ → ℕ) → Scheduler → UserBlock × Scheduler
block_user_from_trap h frame s =
    let cur = s.current h in
    elim (s.threads cur).ipc_wake [
      | some w ↦ (resumed (apply_wake w frame), take_wake cur s)
      | none ↦
          let r = switch_from h cur (
            put_thread s cur (record (s.threads cur) {
              frame = frame;
              frame_valid = true;
              ctx_valid = false;
              woken = false;
              state = blocked;
            })) in
          (switched r.0, r.1)
    ]

-- The thread's stack is left for another thread to free, and its place for the next thread.
unfoldable pub leave_table : ℕ → Bool → Scheduler → Scheduler
leave_table cur ctx s =
    let t = s.threads cur in
    put_thread
      (record s {
        reaper = if t.stack then s.reaper ++ cur ∷ [] else s.reaper;
        free_slots = s.free_slots ++ cur ∷ [];
      })
      cur (record t { stack = false; state = exited; frame_valid = false; ctx_valid = ctx })

unfoldable pub exit : ℕ → Scheduler → SwitchTarget × Scheduler
exit h s = switch_from h (s.current h) (leave_table (s.current h) true s)

-- From a trap: `set_sscratch_trap_top` is the machine's.
unfoldable pub exit_from_trap : ℕ → Scheduler → SwitchTarget × Scheduler
exit_from_trap h s = switch_from h (s.current h) (leave_table (s.current h) true s)

-- `none`: the assertion fails or the thread's state does not allow it.
unfoldable pub set_affinity : ℕ → ℕ → Scheduler → Option Scheduler
set_affinity id hart s =
    let h = if ltb hart max_harts then hart else 3 in
    let t = s.threads id in
    if ltb id s.thread_count
    then if is_ready t.state
      then if t.hart == h
        then some s
        else some (
            let s1 = remove_from_ready id s in
            enqueue id (put_thread s1 id (record (s1.threads id) { hart = h })))
      else if is_blocked t.state
      then some (put_thread s id (record t { hart = h }))
      else none
    else none

-- The wrapper around a kernel thread, up to the call of its function: the frame that it was made with is
-- used up.
unfoldable pub thread_entry : ℕ → Scheduler → ℕ × Scheduler
thread_entry h s =
    let id = s.current h in
    let t = s.threads id in (t.entry, put_thread s id (record t { frame_valid = false }))

-- One round of the idle loop of a secondary core, up to the wait for an interrupt.
unfoldable pub secondary_idle : ℕ → Scheduler → Option SwitchTarget × Scheduler
secondary_idle h s =
    let cur = s.current h in
    let r = pick_next h true (reset_ticks h s) in
    let s1 = record r.1 { current = update r.1.current h r.0 } in
    if r.0 == cur then (none, r.1) else (some (switch_target cur r.0 s1), s1)
