-- ===== src/Sched/Preempt.antt =====
-- Preemption (kernel/src/sched.rs: `on_tick`, `force_kill_current`, `expand_ctx_to_frame`). The result
-- `none` is the frame that was interrupted; `some id` is the frame of a thread, with its root table in
-- use. `gp` is the kernel's global pointer.
use ignium.Base.{
  ℕ, ◌+◌, ◌-◌, Bool, true, false, ◌&&◌, ◌||◌, Option, none, some, List, [], ◌∷◌, ◌==◌, leb, ltb,
  if◌then◌else◌, update, not, zero, suc, ◌%◌,
}
use ignium.Sched.{
  Scheduler, ready, running, slice_ticks, prio_levels, put_thread, enqueue, preemptable, eff_prio,
  remove_from_ready,
}
use ignium.Sched.Switch.{reschedule, reset_ticks, trap_sepc, leave_table}
use ignium.Elf.{word_limit}

-- Registers `s0`, `s1` and `s2` to `s11` of a frame, the stack and global pointers, and `sepc` and
-- `sstatus` with SPIE and SPP.
unfoldable pub expanded : ℕ → ℕ → ℕ → (ℕ → ℕ) → ℕ → ℕ
expanded gp ra sp saved i =
    if i == trap_sepc
    then ra
    else if i == 32
    then 288
    else if i == 1
    then sp
    else if i == 2
    then gp
    else if i == 7
    then saved 0
    else if i == 8
    then saved 1
    else if leb 17 i && ltb i 27
    then saved (i - 15)
    else 0

unfoldable pub expand_ctx_to_frame : ℕ → ℕ → Scheduler → Scheduler
expand_ctx_to_frame gp id s =
    let t = s.threads id in
    put_thread s id (record t {
      frame = expanded gp t.ctx.ra t.ctx.sp t.ctx.s;
      frame_valid = true;
      ctx_valid = false;
      woken = false;
    })

-- A thread other than `cur` that may be preempted to, in a queue and in `n` levels from `l`.
unfoldable pub any_queued : Scheduler → ℕ → List ℕ → Bool
any_queued s cur [] = false
any_queued s cur (id ∷ q) = (not (id == cur) && preemptable s id) || any_queued s cur q

unfoldable pub any_level : Scheduler → ℕ → ℕ → ℕ → ℕ → Bool
any_level s hart cur l zero = false
any_level s hart cur l (suc n) =
    any_queued s cur (s.ready_queues hart l) || any_level s hart cur (suc l) n

-- The thread chosen runs next from its frame.
unfoldable pub run_frame : ℕ → ℕ → Scheduler → Scheduler
run_frame gp next s = if (s.threads next).frame_valid then s else expand_ctx_to_frame gp next s

-- The interrupted thread is caught in its frame and queued, and the core goes to the next thread.
unfoldable pub preempt : ℕ → ℕ → (ℕ → ℕ) → Scheduler → Option ℕ × Scheduler
preempt gp hart frame s =
    let cur = s.current hart in
    let s1 = put_thread s cur (record (s.threads cur) {
      frame = frame;
      frame_valid = true;
      ctx_valid = false;
      state = ready;
    }) in
    let r = reschedule hart false (enqueue cur s1) in
    let s2 = remove_from_ready cur r.1 in
    if r.0 == cur
    then (
      none,
      put_thread s2 cur
          (record (s2.threads cur) { state = running; frame_valid = true; ctx_valid = false }),
    )
    else (some r.0, run_frame gp r.0 r.1)

-- Whether the tick leaves the slice to the current thread: no better thread can take the core.
unfoldable pub keeps_slice : ℕ → Scheduler → Bool
keeps_slice hart s =
    let cur = s.current hart in
    let cur_prio = eff_prio s cur in
    ltb (s.ticks_run hart) slice_ticks && (cur_prio == 0 || not (any_level s hart cur 0 cur_prio))

unfoldable pub on_tick : ℕ → ℕ → (ℕ → ℕ) → Scheduler → Option ℕ × Scheduler
on_tick gp hart frame s =
    let s1 = record s {
      ticks_run = update s.ticks_run hart ((s.ticks_run hart + 1) % word_limit);
    } in
    let s2 = reset_ticks hart s1 in
    if keeps_slice hart s1
    then (none, s1)
    else if not (any_level s2 hart (s2.current hart) 0 prio_levels)
    then (none, s2)
    else preempt gp hart frame s2

unfoldable pub force_kill_current : ℕ → ℕ → Scheduler → Option ℕ × Scheduler
force_kill_current gp hart s =
    let cur = s.current hart in
    let s1 = leave_table cur false s in
    let s2 = put_thread s1 cur (record (s1.threads cur) { woken = false }) in
    let s3 = reset_ticks hart (record s2 { kill_requests = update s2.kill_requests cur false }) in
    let r = reschedule hart false s3 in
    if not (s.kill_requests cur) then (none, s) else (some r.0, run_frame gp r.0 r.1)
