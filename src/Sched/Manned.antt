-- ===== src/Sched/Manned.antt =====
-- Giving up a core (kernel/src/sched.rs): what `yield_` and `exit` make of the threads that run.
use ignium.Base.{ℕ, ◌<◌, ◌≡◌, refl, Bool, true, false, ◌||◌, arith, ◌==◌, update}
use ignium.Sched.{
  Scheduler, Thread, ThreadState, ready, running, blocked, exited, is_ready, is_running, is_blocked,
  max_harts, enqueue, put_thread, put_queue,
}
use ignium.Sched.Inheritance.{IsQueued}
use ignium.Sched.Running.{IsManned, all_on, all_but, Agree, IsQueued-Agree, enqueue-IsQueued}
use ignium.Sched.Leaving.{reschedule-IsManned, finds_cooperatively}
use ignium.Sched.Switch.{switch_from, reset_ticks, yield_, drain_reaper, leave_table, exit}

-- The thread of a core has stopped running, and nothing else has changed.
pub record Left (h : ℕ) (s s' : Scheduler) : Type 0 where
  pub others : (q : ℕ) → (q == s.current h) ≡ false → s'.threads q ≡ s.threads q
  pub stopped : is_running (s'.threads (s.current h)).state ≡ false
  pub hart : (s'.threads (s.current h)).hart ≡ (s.threads (s.current h)).hart
  pub fit :
      (is_ready (s'.threads (s.current h)).state || is_blocked (s'.threads (s.current h)).state)
        ≡ true
      → ((s'.threads (s.current h)).ctx_valid || (s'.threads (s.current h)).frame_valid) ≡ true
  pub idle_queued : s.current h ≡ s.idle h → is_ready (s'.threads (s.current h)).state ≡ true
  pub current : s'.current ≡ s.current
  pub idle : s'.idle ≡ s.idle
  pub thread_count : s'.thread_count ≡ s.thread_count

pub Left-IsManned :
    (h : ℕ) (s s' : Scheduler)
    → Left h s s'
    → IsQueued s'
    → h < max_harts
    → IsManned s all_on
    → IsManned s' (all_but h)
Left-IsManned h s s' e q low v = record {
  queued = q;
  current = λ k small on.
      ground (
        arith,
        e.current,
        v.current k small refl,
        v.current h low refl,
        e.others (s.current k),
        on,
      );
  idle = λ k small. ground (
    arith,
    e.idle,
    e.others (s.idle k),
    v.idle k small,
    e.idle_queued,
    e.hart,
    v.current h low refl,
  );
  only = λ id go.
      ground
        (arith, e.current, e.idle, e.others id, v.only id, e.stopped, go, v.current h low refl);
  fit = λ id go. ground (arith, e.others id, v.fit id, e.fit, go);
  known = λ id go. ground (
    arith,
    e.others id,
    v.known id,
    e.thread_count,
    go,
    v.known (s.current h),
    v.current h low refl,
  );
  table = rw (e.thread_count) v.table;
}

-- The tick counts are free.
pub ticks-IsManned :
    (f : ℕ → ℕ) (on : ℕ → Bool) (s : Scheduler)
    → IsManned s on
    → IsManned (record s { ticks_run = f }) on
ticks-IsManned f on s v = record {
  queued =
      IsQueued-Agree s (record s { ticks_run = f })
        (record {
          is = λ q. refl;
          prio = λ q. refl;
          proc = λ q. refl;
          hart = λ q. refl;
          queues = λ k l. refl;
          donations = refl;
        })
        v.queued;
  current = v.current;
  idle = v.idle;
  only = v.only;
  fit = v.fit;
  known = v.known;
  table = v.table;
}

-- So are the requests to stop.
pub requests-IsManned :
    (f : ℕ → Bool) (on : ℕ → Bool) (s : Scheduler)
    → IsManned s on
    → IsManned (record s { kill_requests = f }) on
requests-IsManned f on s v = record {
  queued =
      IsQueued-Agree s (record s { kill_requests = f })
        (record {
          is = λ q. refl;
          prio = λ q. refl;
          proc = λ q. refl;
          hart = λ q. refl;
          queues = λ k l. refl;
          donations = refl;
        })
        v.queued;
  current = v.current;
  idle = v.idle;
  only = v.only;
  fit = v.fit;
  known = v.known;
  table = v.table;
}

pub switch_from-IsManned :
    (h : ℕ) (s s' : Scheduler)
    → Left h s s'
    → IsQueued s'
    → h < max_harts
    → IsManned s all_on
    → IsManned (switch_from h (s.current h) s').1 all_on
unfolding switch_from reset_ticks
switch_from-IsManned h s s' e q low v =
    let left =
      ticks-IsManned (update s'.ticks_run h 0) (all_but h) s' (Left-IsManned h s s' e q low v) in
    reschedule-IsManned h true (reset_ticks h s') left low (ground (arith, e.current, e.stopped))
      (finds_cooperatively h (reset_ticks h s') left low)

pub not_both : (t : ThreadState) → is_running t ≡ true → is_ready t ≡ false
not_both running h = refl
not_both ready h = ground (arith, h)
not_both blocked h = ground (arith, h)
not_both exited h = ground (arith, h)

-- A queue state in which the current thread has been queued again.
pub queued-IsQueued :
    (h : ℕ) (s s1 : Scheduler)
    → Agree s s1
    → IsManned s all_on
    → h < max_harts
    → IsQueued (enqueue (s.current h) s1)
queued-IsQueued h s s1 a v low =
    let runs = v.current h low refl in
    enqueue-IsQueued (s.current h) s1 (IsQueued-Agree s s1 a v.queued)
      (omega (arith, v.table, v.known (s.current h) (ground (arith, runs))))
      (ground (arith, a.is (s.current h), not_both (s.threads (s.current h)).state runs.0))

pub yield_-IsManned :
    (h : ℕ) (s : Scheduler) → IsManned s all_on → h < max_harts → IsManned (yield_ h s).1 all_on
unfolding yield_ enqueue put_thread put_queue drain_reaper
yield_-IsManned h s v low =
    switch_from-IsManned h s (enqueue cur s1)
      (record {
        others = λ q o. ground (arith, o);
        stopped = ground arith;
        hart = ground arith;
        fit = λ _. ground arith;
        idle_queued = λ _. ground arith;
        current = refl;
        idle = refl;
        thread_count = refl;
      })
      (queued-IsQueued h s s1
        (record {
          is = λ q. ground arith;
          prio = λ q. ground arith;
          proc = λ q. ground arith;
          hart = λ q. ground arith;
          queues = λ k l. refl;
          donations = refl;
        })
        v low)
      low v
  where
    cur : ℕ
    cur = s.current h

    s1 : Scheduler
    s1 =
        drain_reaper
          (put_thread s cur (record (s.threads cur) { frame_valid = false; ctx_valid = true }))

pub exit-IsManned :
    (h : ℕ) (s : Scheduler)
    → IsManned s all_on
    → h < max_harts
    → (s.current h == s.idle h) ≡ false
    → IsManned (exit h s).1 all_on
unfolding exit leave_table put_thread
exit-IsManned h s v low busy =
    switch_from-IsManned h s (leave_table cur true s)
      (record {
        others = λ q o. ground (arith, o);
        stopped = ground arith;
        hart = ground arith;
        fit = λ k. ground (arith, k);
        idle_queued = λ e. ground (arith, e, busy);
        current = refl;
        idle = refl;
        thread_count = refl;
      })
      (IsQueued-Agree s (leave_table cur true s)
        (record {
          is = λ q. ground (arith, not_both (s.threads cur).state (v.current h low refl).0);
          prio = λ q. ground arith;
          proc = λ q. ground arith;
          hart = λ q. ground arith;
          queues = λ k l. refl;
          donations = refl;
        })
        v.queued)
      low v
  where
    cur : ℕ
    cur = s.current h

-- The current thread blocks, with its state saved.
pub blocked-IsManned :
    (h : ℕ) (s : Scheduler) (t : Thread)
    → IsManned s all_on
    → h < max_harts
    → (s.current h == s.idle h) ≡ false
    → t.state ≡ blocked
    → (t.ctx_valid || t.frame_valid) ≡ true
    → t.prio ≡ (s.threads (s.current h)).prio
    → t.proc ≡ (s.threads (s.current h)).proc
    → t.hart ≡ (s.threads (s.current h)).hart
    → IsManned (switch_from h (s.current h) (put_thread s (s.current h) t)).1 all_on
unfolding put_thread
blocked-IsManned h s t v low busy st saved a b c =
    switch_from-IsManned h s (put_thread s cur t)
      (record {
        others = λ q o. ground (arith, o);
        stopped = ground (arith, st);
        hart = ground (arith, c);
        fit = λ k. ground (arith, saved);
        idle_queued = λ e. ground (arith, e, busy);
        current = refl;
        idle = refl;
        thread_count = refl;
      })
      (IsQueued-Agree s (put_thread s cur t)
        (record {
          is = λ q. ground (arith, st, not_both (s.threads cur).state (v.current h low refl).0);
          prio = λ q. ground (arith, a);
          proc = λ q. ground (arith, b);
          hart = λ q. ground (arith, c);
          queues = λ k l. refl;
          donations = refl;
        })
        v.queued)
      low v
  where
    cur : ℕ
    cur = s.current h
