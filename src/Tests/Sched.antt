-- ===== src/Tests/Sched.antt =====
-- A machine of four cores with a user thread of process 7 at the lowest priority and a kernel thread at
-- the highest, both on core 0.
use ignium.Sched.Manned.{requests-IsManned}
use ignium.Sched.Preempt.{force_kill_current}
use ignium.Sched.Delivery.{delivery}
use ignium.Sched.Faults.{kill_threads-free_slots, force_kill_current-stuck}
use ignium.Sched.Kills.{kill_threads}
use ignium.Sched.Bounds.{register_donation-eff_prio, pick_next-best}
use ignium.Sched.Donations.{register_donation, revoke_donations, max_donations}
use ignium.Base.Counting.{count}
use ignium.Sched.Inheritance.{Requeued, revoke_donations-Requeued}
use ignium.Base.{ℕ, ◌+◌, ◌≤◌, ◌<◌, ◌≡◌, refl, true, arith, some, [], ◌∷◌, ◌==◌, length, update}
use ignium.Sched.{
  Scheduler, max_harts, max_threads, is_ready, is_running, eff_prio, eligible, enqueue, put_thread,
  put_queue, exited, pick_next, gather_harts, belongs, pick_from, pick_level, lowest,
}
use ignium.Sched.Wakes.{ipc_wake_with_msg}
use ignium.Sched.Spawns.{
  Kernel, UserStart, init, spawn, spawn_user, claim_slot, place_thread, kernel_thread, user_thread,
  idle_thread,
}
use ignium.Sched.Switch.{
  yield_, block_user_from_trap, resumed, switch_from, reset_ticks, reschedule, drain_reaper,
}
use ignium.Sched.Running.{IsManned, all_on}
use ignium.Sched.Steps.{
  Steps, here, next, spawns, spawns_user, yields, IsVacant-new, Steps-init, Steps-current,
  Steps-fit,
}

abbrev kernel : Kernel
kernel = record { hartid = 0; thread_entry = 4096; gp = 512; kernel_root = 8192 }

abbrev user : UserStart
user = record {
  proc_id = 7;
  root = 12288;
  entry_pc = 65536;
  stack_top = 131072;
  prio = 2;
  argc = 0;
  argv = 0;
}

abbrev pub booted : Scheduler
booted = init kernel 4160 (λ h. 20480)

abbrev with_user : Scheduler
with_user = place_thread 4 (user_thread kernel 4200 user) booted

abbrev with_both : Scheduler
with_both = place_thread 5 (kernel_thread kernel 4300 0 40960) with_user

booted-Steps : Steps booted with_user
unfolding spawn_user claim_slot init place_thread enqueue put_thread put_queue
booted-Steps = next here (
    spawns_user kernel 4200 user 4 with_user (omega arith)
      (IsVacant-new booted (Steps-init kernel 4160 (λ h. 20480) booted here) refl) refl)

both-Steps : Steps booted with_both
unfolding spawn claim_slot init place_thread enqueue put_thread put_queue
both-Steps = next booted-Steps (
    spawns kernel 4300 0 40960 5 with_both (omega arith)
      (IsVacant-new with_user (Steps-init kernel 4160 (λ h. 20480) with_user booted-Steps) refl)
      refl)

Steps-init_example : IsManned with_both all_on
Steps-init_example = Steps-init kernel 4160 (λ h. 20480) with_both both-Steps

Steps-current_example :
    (is_running (with_both.threads (with_both.current 0)).state ≡ true)
    × ((with_both.threads (with_both.current 0)).hart ≡ 0)
    × ((j : ℕ) → j < max_harts → with_both.current j ≡ with_both.current 0 → j ≡ 0)
Steps-current_example = Steps-current kernel 4160 (λ h. 20480) with_both 0 both-Steps (omega arith)

pick_next-best_example :
    let id = (pick_next 0 true with_both).0 in
    (is_ready (with_both.threads id).state ≡ true)
    × ((with_both.threads id).hart ≡ 0)
    × (eligible true (with_both.threads id) ≡ true)
    × (eff_prio with_both id ≤ eff_prio with_both 5)
unfolding init place_thread enqueue put_thread put_queue kernel_thread
pick_next-best_example = pick_next-best with_both 0 true 5 Steps-init_example.queued refl refl refl

Steps-fit_example :
    (length (with_both.ready_queues 0 2) ≤ max_threads)
    × (length (gather_harts with_both (belongs with_both 7) 0 max_harts) ≤ max_threads)
    × (length with_both.donations ≤ max_donations)
Steps-fit_example = Steps-fit kernel 4160 (λ h. 20480) with_both 0 2 7 both-Steps

-- The kernel thread waits for process 7.
register_donation-eff_prio_example :
    eff_prio (register_donation 5 7 with_both) 4 ≤ eff_prio with_both 5
unfolding init place_thread enqueue put_thread put_queue kernel_thread user_thread
register_donation-eff_prio_example =
    register_donation-eff_prio 5 7 with_both 4 Steps-init_example.queued tt (omega arith) refl

revoke_donations-Requeued_example : Requeued with_both (revoke_donations 5 with_both)
revoke_donations-Requeued_example = revoke_donations-Requeued 5 with_both Steps-init_example.queued

-- The message to the thread of core 0, before it blocks.
delivery_example :
    (block_user_from_trap 0 (λ i. i) (ipc_wake_with_msg 1 0 (some (1, 2, 3, 4, 5)) with_both).1).0
    ≡ resumed
        ((ipc_wake_with_msg 1 0
            (some (1, 2, 3, 4, 5))
            (block_user_from_trap 0 (λ i. i) with_both).1).1.threads
          0).frame
unfolding init place_thread enqueue put_thread put_queue idle_thread
delivery_example = delivery 0 1 (1, 2, 3, 4, 5) (λ i. i) with_both refl refl

-- Thread 4 has exited, and its place is free.
abbrev with_exited : Scheduler
with_exited = record with_user {
  threads = update with_user.threads 4 (record (with_user.threads 4) { state = exited });
  free_slots = 4 ∷ [];
}

kill_threads-free_slots_example :
    count 4 (kill_threads 0 7 with_exited).1.free_slots ≡ count 4 with_exited.free_slots + 1
unfolding init place_thread enqueue put_thread put_queue user_thread
kill_threads-free_slots_example =
    kill_threads-free_slots 0 7 with_exited 4 (omega arith) (omega arith) refl refl refl

-- The user thread runs on core 0, whose idle thread waits in its queue, and is asked to stop.
abbrev user_runs : Scheduler
user_runs = (yield_ 0 with_user).1

abbrev user_asked : Scheduler
user_asked = record user_runs { kill_requests = λ id. id == 4 }

force_kill_current-stuck_example :
    let r = force_kill_current 512 0 user_asked in
    (r.0 ≡ some (user_asked.idle 0))
    × (r.1.current 0 ≡ user_asked.idle 0)
    × (is_ready (r.1.threads (user_asked.idle 0)).state ≡ true)
unfolding yield_ switch_from reset_ticks reschedule pick_next pick_from pick_level drain_reaper
    put_thread put_queue enqueue place_thread init idle_thread user_thread eff_prio lowest
force_kill_current-stuck_example =
    force_kill_current-stuck 512 0 user_asked
      (requests-IsManned (λ id. id == 4) all_on user_runs
        (Steps-init kernel 4160 (λ h. 20480) user_runs
          (next booted-Steps (yields 0 (omega arith)))))
      (omega arith) refl refl refl (λ q r h. ground (arith, r, h))
