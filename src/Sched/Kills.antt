-- ===== src/Sched/Kills.antt =====
-- Killing a process's threads (kernel/src/sched.rs: the part of `kill_process` under the scheduler's
-- lock). The result says whether the current thread is one of them, and lists the threads that run on
-- other cores, with those cores.
use ignium.Base.{
  ℕ, zero, suc, Bool, true, false, ◌&&◌, some, List, [], ◌∷◌, ◌++◌, ◌==◌, if◌then◌else◌, update,
  not, take, contains,
}
use ignium.Sched.{Scheduler, is_running, max_threads, retain_queues, belongs}
use ignium.Sched.Donations.{revoke_donations_for_proc, revoke_donations_of}
use ignium.Sched.Switch.{leave_table}

-- The process's threads other than `cur`, of the `n` from `id`.
unfoldable pub victims : Scheduler → ℕ → ℕ → ℕ → ℕ → List ℕ
victims s pid cur id zero = []
victims s pid cur id (suc n) =
    let rest = victims s pid cur (suc id) n in
    if belongs s pid id && not (id == cur) then id ∷ rest else rest

unfoldable pub kill_victims : List ℕ → Scheduler → List (ℕ × ℕ) × Scheduler
kill_victims [] s = ([], s)
kill_victims (id ∷ ids) s =
    let live = is_running (s.threads id).state in
    let s1 =
      if live
      then record s { kill_requests = update s.kill_requests id true }
      else leave_table id false s in
    let rest = kill_victims ids s1 in
    (if live then (id, (s.threads id).hart) ∷ rest.0 else rest.0, rest.1)

unfoldable pub kill_threads : ℕ → ℕ → Scheduler → (Bool × List (ℕ × ℕ)) × Scheduler
kill_threads h pid s =
    let cur = s.current h in
    let ids = take max_threads (victims s pid cur 0 s.thread_count) in
    let r = kill_victims ids (retain_queues (λ id. not (contains ids id)) s) in
    (
      (belongs s pid cur, r.0),
      revoke_donations_of (ids ++ cur ∷ []) (some pid) (revoke_donations_for_proc pid r.1),
    )
