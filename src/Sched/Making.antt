-- ===== src/Sched/Making.antt =====
-- New threads (kernel/src/sched.rs: `init`, `spawn`, `spawn_user`) and the threads that run.
use ignium.Base.{ℕ, ◌+◌, ◌≤◌, ◌<◌, ◌≡◌, refl, true, false, ◌||◌, arith, ltb, if◌then◌else◌, update}
use ignium.Sched.{
  Scheduler, Thread, ready, exited, is_ready, is_running, max_harts, prio_levels, max_threads,
  put_thread, put_queue, enqueue, eff_prio,
}
use ignium.Sched.Inheritance.{IsQueued}
use ignium.Sched.Running.{IsManned, all_on, IsQueued-Agree, enqueue-IsQueued}
use ignium.Sched.Spawns.{
  Kernel, UserStart, idle_thread, init, place_thread, kernel_thread, user_thread, clamp_prio,
}

init-IsQueued : (k : Kernel) (entry : ℕ) (sps : ℕ → ℕ) → IsQueued (init k entry sps)
unfolding init idle_thread
init-IsQueued k entry sps = record {
  sane = record {
    thread = λ id h. ground (arith, h);
    hart = λ id. ground arith;
    prio = λ id. ground arith;
  };
  placed = λ h l id. ground arith;
  few = ground arith;
}

pub init-IsManned : (k : Kernel) (entry : ℕ) (sps : ℕ → ℕ) → IsManned (init k entry sps) all_on
unfolding init idle_thread
init-IsManned k entry sps = record {
  queued = init-IsQueued k entry sps;
  current = λ h low _. ground (arith, low);
  idle = λ h low. ground (arith, low);
  only = λ id go. ground (arith, go);
  fit = λ id go. ground (arith, go);
  known = λ id go. ground (arith, go);
  table = ground arith;
}

-- A new thread is put where no thread is in use.
pub place_thread-IsManned :
    (id : ℕ) (t : Thread) (s : Scheduler)
    → IsManned s all_on
    → id ≤ s.thread_count
    → id < max_threads
    → (is_ready (s.threads id).state || is_running (s.threads id).state) ≡ false
    → t.state ≡ ready
    → t.prio < prio_levels
    → t.hart < max_harts
    → t.frame_valid ≡ true
    → IsManned (place_thread id t s) all_on
unfolding place_thread enqueue put_thread put_queue eff_prio
place_thread-IsManned id t s v near small unused st p h f = record {
  queued = queued;
  current = λ c low o. ground (arith, v.current c low o, unused);
  idle = λ c low. ground (arith, v.idle c low, unused);
  only = λ q go. ground (arith, v.only q, go);
  fit = λ q go. ground (arith, v.fit q, f, go);
  known = λ q go. ground (arith, v.known q, near, go);
  table = ground (arith, v.table, small, near);
}
  where
    s1 : Scheduler
    s1 =
        put_thread
          (record s {
            kill_requests = update s.kill_requests id false;
            thread_count = if ltb id s.thread_count then s.thread_count else s.thread_count + 1;
          })
          id (record t { state = exited })

    calm : IsQueued s1
    calm = record {
      sane = record {
        thread = λ q r. ground (arith, v.queued.sane.thread q, r);
        hart = λ q. ground (arith, v.queued.sane.hart q, h);
        prio = λ q. ground (arith, v.queued.sane.prio q, p);
      };
      placed = λ k l q. ground (arith, v.queued.placed k l q, unused);
      few = v.queued.few;
    }

    queued : IsQueued (place_thread id t s)
    queued =
        IsQueued-Agree (enqueue id s1) (place_thread id t s)
          (record {
            is = λ q. ground arith;
            prio = λ q. ground arith;
            proc = λ q. ground arith;
            hart = λ q. ground arith;
            queues = λ k l. ground arith;
            donations = refl;
          })
          (enqueue-IsQueued id s1 calm small (ground arith))

clamp_prio_lt : (p : ℕ) → clamp_prio p < prio_levels
clamp_prio_lt p = ground arith

pub kernel_thread-IsManned :
    (k : Kernel) (entry prio sp id : ℕ) (s : Scheduler)
    → IsManned s all_on
    → k.hartid < max_harts
    → id ≤ s.thread_count
    → id < max_threads
    → (is_ready (s.threads id).state || is_running (s.threads id).state) ≡ false
    → IsManned (place_thread id (kernel_thread k entry prio sp) s) all_on
unfolding kernel_thread
kernel_thread-IsManned k entry prio sp id s v low near small unused =
    place_thread-IsManned id (kernel_thread k entry prio sp) s v near small unused refl
      (clamp_prio_lt prio) low refl

pub user_thread-IsManned :
    (k : Kernel) (stub : ℕ) (u : UserStart) (id : ℕ) (s : Scheduler)
    → IsManned s all_on
    → k.hartid < max_harts
    → id ≤ s.thread_count
    → id < max_threads
    → (is_ready (s.threads id).state || is_running (s.threads id).state) ≡ false
    → IsManned (place_thread id (user_thread k stub u) s) all_on
unfolding user_thread
user_thread-IsManned k stub u id s v low near small unused =
    place_thread-IsManned id (user_thread k stub u) s v near small unused refl
      (clamp_prio_lt u.prio) low refl
