-- ===== src/Sched/Idle.antt =====
-- The idle loop of a secondary core (kernel/src/sched.rs: `secondary_idle`) and the threads that run.
use ignium.Base.{
  ℕ, ◌<◌, ◌≡◌, refl, true, false, arith, Option, none, some, ◌==◌, if◌then◌else◌, update, ap, ◌||◌,
}
use ignium.Base.Counting.{apart}
use ignium.Sched.{
  Scheduler, ThreadState, ready, running, blocked, exited, is_ready, is_running, is_blocked,
  put_thread, max_harts, prio_levels, eff_prio, pick_from, pick_next, fallback,
}
use ignium.Sched.Queues.{Placed}
use ignium.Sched.Picks.{Picked, pick_from-Picked}
use ignium.Sched.Inheritance.{Placed-ext}
use ignium.Sched.Running.{
  IsManned, all_on, all_but, IsSearch, pick_from-IsSearch, eff_prio-Agree, IsQueued-Agree,
}
use ignium.Sched.Leaving.{found-IsManned}
use ignium.Sched.Manned.{ticks-IsManned, not_both}
use ignium.Sched.Switch.{SwitchTarget, switch_target, secondary_idle, reset_ticks, thread_entry}

only_one : (t : ThreadState) → is_running t ≡ true → (is_ready t || is_blocked t) ≡ false
only_one running h = refl
only_one ready h = ground (arith, h)
only_one blocked h = ground (arith, h)
only_one exited h = ground (arith, h)

-- An idle thread that is its core's current thread may stand aside.
aside-IsManned :
    (h : ℕ) (s : Scheduler) → IsManned s all_on → s.current h ≡ s.idle h → IsManned s (all_but h)
aside-IsManned h s v e = record {
  queued = v.queued;
  current = λ k low _. v.current k low refl;
  idle = v.idle;
  only = λ q go. ground (arith, v.only q, e, go);
  fit = v.fit;
  known = v.known;
  table = v.table;
}

-- A search that finds none changes no thread.
unfound-IsManned :
    (s s' : Scheduler)
    → IsManned s all_on
    → IsSearch s (none, s')
    → Placed s' (eff_prio s)
    → IsManned s' all_on
unfound-IsManned s s' v f placed = record {
  queued = record {
    sane = record {
      thread = λ q. ground (arith, at q, v.queued.sane.thread q);
      hart = λ q. ground (arith, at q, v.queued.sane.hart q);
      prio = λ q. ground (arith, at q, v.queued.sane.prio q);
    };
    placed =
        Placed-ext s' (eff_prio s) (eff_prio s')
          (λ q. eff_prio-Agree s s' q (ground (arith, at q)) (ground (arith, at q)) f.donations)
          placed;
    few = rw (f.donations) v.queued.few;
  };
  current = λ k small _. ground (arith, at (s.current k), f.current, v.current k small refl);
  idle = λ k small. ground (arith, at (s.idle k), f.idle, v.idle k small);
  only = λ q go. ground (arith, at q, f.current, f.idle, v.only q, go);
  fit = λ q go. ground (arith, at q, v.fit q, go);
  known = λ q go. ground (arith, at q, v.known q, f.thread_count, go);
  table = rw (f.thread_count) v.table;
}
  where
    at : (q : ℕ) → s'.threads q ≡ s.threads q
    at q = ap (λ g. g q) f.threads

pub secondary_idle-IsManned :
    (h : ℕ) (s : Scheduler)
    → IsManned s all_on
    → h < max_harts
    → s.current h ≡ s.idle h
    → IsManned (secondary_idle h s).1 all_on
unfolding secondary_idle pick_next reset_ticks
secondary_idle-IsManned h s v low e =
    go (pick_from h true 0 prio_levels s1) (pick_from-IsSearch h true 0 prio_levels s1)
      (pick_from-Picked s1 (eff_prio s1) h true 0 prio_levels v1.queued.placed)
  where
    s1 : Scheduler
    s1 = reset_ticks h s

    v1 : IsManned s1 all_on
    v1 = ticks-IsManned s1.ticks_run all_on s v

    go :
        (p : Option ℕ × Scheduler)
        → IsSearch s1 p
        → Picked s1 (eff_prio s1) h true 0 prio_levels p
        → let c : ℕ × Scheduler = elim p.0 [ none ↦ (fallback h p.1, p.1) | some id ↦ (id, p.1) ] in
          let s2 : Scheduler = record c.1 { current = update c.1.current h c.0 } in
          let r : Option SwitchTarget × Scheduler =
            if c.0 == s.current h
            then (none, c.1)
            else (some (switch_target (s.current h) c.0 s2), s2) in
          IsManned r.1 all_on
    go (none, s') f p =
        let same : (fallback h s' == s.current h) ≡ true =
          ground
            (arith, ap (λ g. g (s.current h)) f.threads, f.current, (v.current h low refl).0) in
        rw same (unfound-IsManned s1 s' v1 f p.placed)
    go (some id, s') f p =
        let best = p.best id refl in
        let other : (id == s.current h) ≡ false =
          apart (λ q. is_ready (s.threads q).state) id (s.current h) best.0
            (not_both (s.threads (s.current h)).state (v.current h low refl).0) in
        rw other (found-IsManned s1 s' h id (aside-IsManned h s1 v1 e) f p.placed best.0 best.1)

-- The frame of a running thread is not needed while it runs.
pub thread_entry-IsManned :
    (h : ℕ) (s : Scheduler)
    → IsManned s all_on
    → h < max_harts
    → IsManned (thread_entry h s).1 all_on
unfolding thread_entry put_thread
thread_entry-IsManned h s v low = record {
  queued =
      IsQueued-Agree s (thread_entry h s).1
        (record {
          is = λ q. ground arith;
          prio = λ q. ground arith;
          proc = λ q. ground arith;
          hart = λ q. ground arith;
          queues = λ k l. refl;
          donations = refl;
        })
        v.queued;
  current = λ k small on. ground (arith, v.current k small refl);
  idle = λ k small. ground (arith, v.idle k small);
  only = λ q go. ground (arith, v.only q, go);
  fit = λ q go. ground (arith, v.fit q, runs, go);
  known = λ q go. ground (arith, v.known q, go);
  table = v.table;
}
  where
    runs :
        ((is_ready (s.threads (s.current h)).state || is_blocked (s.threads (s.current h)).state)
          ≡ false)
    runs = only_one (s.threads (s.current h)).state (v.current h low refl).0
