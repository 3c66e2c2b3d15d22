-- ===== src/Sched/Faults.antt =====
-- Stopping and killing threads (kernel/src/sched.rs: `force_kill_current`, `kill_process`) where the
-- idle thread is queued, and where a thread has exited before.
use ignium.Base.{
  ℕ, zero, suc, ◌+◌, ◌≤◌, ◌<◌, ◌≡◌, refl, true, false, ◌&&◌, inl, inr, arith, Option, none, some,
  List, [], ◌∷◌, ◌++◌, ◌==◌, ltb, if◌then◌else◌, length, update, subst, sym, ◌∙◌, ap, Bool-cases,
  not, take, contains, take_all, leb,
}
use ignium.Base.Counting.{count, count-append, apart}
use ignium.Sched.{
  Scheduler, exited, is_ready, is_running, belongs, max_harts, max_threads, prio_levels, put_thread,
  eligible, pick_from, pick_next, fallback, eff_prio, retain_queues,
}
use ignium.Sched.Picks.{Picked, pick_from-Picked}
use ignium.Sched.Inheritance.{IsQueued}
use ignium.Sched.Running.{IsManned, all_on, IsQueued-Agree, IsSearch, pick_from-IsSearch}
use ignium.Sched.Manned.{not_both}
use ignium.Sched.Kept.{Kept, revoke_donations_of-Kept, revoke_donations_for_proc-Kept}
use ignium.Sched.Donations.{revoke_donations_of, revoke_donations_for_proc}
use ignium.Sched.Switch.{leave_table, reschedule, reset_ticks}
use ignium.Sched.Preempt.{force_kill_current, run_frame, expand_ctx_to_frame}
use ignium.Sched.Kills.{victims, kill_victims, kill_threads}

-- What the killed thread leaves.
killed : ℕ → Scheduler → Scheduler
killed h s =
    let s1 = leave_table (s.current h) false s in
    let s2 = put_thread s1 (s.current h) (record (s1.threads (s.current h)) { woken = false }) in
    reset_ticks h (record s2 { kill_requests = update s2.kill_requests (s.current h) false })

run_frame-state :
    (gp next : ℕ) (s : Scheduler) (q : ℕ)
    → ((run_frame gp next s).current ≡ s.current)
      × (((run_frame gp next s).threads q).state ≡ (s.threads q).state)
unfolding run_frame expand_ctx_to_frame put_thread
run_frame-state gp next s q = elim (Bool-cases (s.threads next).frame_valid) [
  | inl e ↦ rw (run_frame, e) (refl, refl)
  | inr e ↦ rw (run_frame, e) (refl, ground arith)
]

-- Where each core runs a thread, and the current thread of a core, not its idle thread, is
-- asked to stop while the idle thread is queued and no ready thread of the core may be
-- preempted to, stopping it makes the idle thread the current one, with the state still ready.
pub force_kill_current-stuck :
    (gp h : ℕ) (s : Scheduler)
    → IsManned s all_on
    → h < max_harts
    → s.kill_requests (s.current h) ≡ true
    → (s.current h == s.idle h) ≡ false
    → is_ready (s.threads (s.idle h)).state ≡ true
    → ((q : ℕ)
        → is_ready (s.threads q).state ≡ true
        → (s.threads q).hart ≡ h
        → eligible false (s.threads q) ≡ false)
    → let r = force_kill_current gp h s in
      (r.0 ≡ some (s.idle h))
      × (r.1.current h ≡ s.idle h)
      × (is_ready (r.1.threads (s.idle h)).state ≡ true)
unfolding force_kill_current killed reschedule pick_next put_thread leave_table reset_ticks
force_kill_current-stuck gp h s v low asked other queued nobody =
    go (pick_from h false 0 prio_levels (killed h s))
      (pick_from-IsSearch h false 0 prio_levels (killed h s))
      (pick_from-Picked (killed h s) (eff_prio (killed h s)) h false 0 prio_levels
        ready_left.placed)
  where
    ready_left : IsQueued (killed h s)
    ready_left =
        IsQueued-Agree s (killed h s)
          (record {
            is = λ q.
                ground (arith, not_both (s.threads (s.current h)).state (v.current h low refl).0);
            prio = λ q. ground arith;
            proc = λ q. ground arith;
            hart = λ q. ground arith;
            queues = λ k l. refl;
            donations = refl;
          })
          v.queued

    go :
        (p : Option ℕ × Scheduler)
        → IsSearch (killed h s) p
        → Picked (killed h s) (eff_prio (killed h s)) h false 0 prio_levels p
        → let c : ℕ × Scheduler = elim p.0 [ none ↦ (fallback h p.1, p.1) | some id ↦ (id, p.1) ] in
          let s3 : Scheduler = record c.1 { current = update c.1.current h c.0 } in
          let r : Option ℕ × Scheduler =
            if not (s.kill_requests (s.current h))
            then (none, s)
            else (some c.0, run_frame gp c.0 s3) in
          (r.0 ≡ some (s.idle h))
          × (r.1.current h ≡ s.idle h)
          × (is_ready (r.1.threads (s.idle h)).state ≡ true)
    go (some id, s') f p =
        let best = p.best id refl in ground (arith, best.0, best.1, best.2, nobody id, other)
    go (none, s') f p =
        let at = ap (λ g. g (s.current h)) f.threads in
        let at_idle = ap (λ g. g (s.idle h)) f.threads in
        let chosen : fallback h s' ≡ s.idle h = ground (arith, at, f.current, f.idle) in
        let kept =
          run_frame-state gp (s.idle h) (record s' { current = update s'.current h (s.idle h) })
            (s.idle h) in
        rw (asked, chosen)
          (
            refl,
            ap (λ g. g h) kept.0 ∙ ground arith,
            ap is_ready kept.1 ∙ ground (arith, at_idle, queued, other),
          )

-- Each of the process's threads that does not run gives its place back, whatever it gave back before.
kill_victims-free_slots :
    (ids : List ℕ) (s : Scheduler) (id : ℕ)
    → is_running (s.threads id).state ≡ false
    → count id (kill_victims ids s).1.free_slots ≡ count id s.free_slots + count id ids
unfolding kill_victims leave_table put_thread
kill_victims-free_slots [] s id off = omega arith
kill_victims-free_slots (x ∷ ids) s id off = elim (Bool-cases (is_running (s.threads x).state)) [
  | inl e ↦
      rw (kill_victims, e)
        (ground (
          arith,
          off,
          e,
          apart (λ y. is_running (s.threads y).state) x id e off,
          kill_victims-free_slots ids (record s { kill_requests = update s.kill_requests x true })
              id off,
        ))
  | inr e ↦
      rw (kill_victims, e)
        (ground (
          arith,
          count-append id s.free_slots (x ∷ []),
          kill_victims-free_slots ids (leave_table x false s) id (ground (arith, off)),
        ))
]

count-victims :
    (s : Scheduler) (pid cur i n id : ℕ)
    → count id (victims s pid cur i n)
      ≡ (if (belongs s pid id && not (id == cur)) && (leb i id && ltb id (i + n)) then 1 else 0)
unfolding victims
count-victims s pid cur i zero id = ground arith
count-victims s pid cur i (suc n) id = elim (Bool-cases (i == id)) [
  | inl e ↦
      let same : i ≡ id = ground (arith, e) in
      subst
        (λ k. count id (victims s pid cur k (suc n)) ≡ (
          if (belongs s pid id && not (id == cur)) && (leb k id && ltb id (k + suc n))
          then 1
          else 0))
        (sym same) (ground (arith, count-victims s pid cur (suc id) n id))
  | inr e ↦ ground (arith, e, count-victims s pid cur (suc i) n id)
]

length-victims : (s : Scheduler) (pid cur i n : ℕ) → length (victims s pid cur i n) ≤ n
unfolding victims
length-victims s pid cur i zero = omega arith
length-victims s pid cur i (suc n) = ground (arith, length-victims s pid cur (suc i) n)

-- Killing a process gives back the place of each of its threads that has exited before, other
-- than the current one, once more.
pub kill_threads-free_slots :
    (h pid : ℕ) (s : Scheduler) (id : ℕ)
    → s.thread_count ≤ max_threads
    → id < s.thread_count
    → (s.threads id).proc ≡ some pid
    → (id == s.current h) ≡ false
    → (s.threads id).state ≡ exited
    → count id (kill_threads h pid s).1.free_slots ≡ count id s.free_slots + 1
unfolding kill_threads retain_queues
kill_threads-free_slots h pid s id table small member other dead =
    ap (count id) (of.free_slots ∙ for.free_slots)
    ∙ omega (arith, kill_victims-free_slots ids s1 id (ap is_running dead), seen)
  where
    all :
        take max_threads (victims s pid (s.current h) 0 s.thread_count)
        ≡ victims s pid (s.current h) 0 s.thread_count
    all =
        take_all max_threads _
          (omega (arith, table, length-victims s pid (s.current h) 0 s.thread_count))

    ids : List ℕ
    ids = take max_threads (victims s pid (s.current h) 0 s.thread_count)

    s1 : Scheduler
    s1 = retain_queues (λ x. not (contains ids x)) s

    seen : count id ids ≡ 1
    seen = rw all (
        ground (arith, count-victims s pid (s.current h) 0 s.thread_count id, member, other, small))

    s2 : Scheduler
    s2 = (kill_victims ids s1).1

    for : Kept s2 (revoke_donations_for_proc pid s2)
    for = revoke_donations_for_proc-Kept pid s2

    of : Kept (revoke_donations_for_proc pid s2) (
        revoke_donations_of (ids ++ s.current h ∷ []) (some pid) (revoke_donations_for_proc pid s2))
    of =
        revoke_donations_of-Kept (ids ++ s.current h ∷ []) (some pid)
          (revoke_donations_for_proc pid s2)
