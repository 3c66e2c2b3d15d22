-- ===== src/Sched/Ticking.antt =====
-- Preemption by the timer (kernel/src/sched.rs: `on_tick`) and the threads that run.
use ignium.Base.{
  ℕ, zero, suc, ◌+◌, ◌<◌, ◌≡◌, refl, Bool, true, false, inl, inr, arith, none, List, [], ◌∷◌, ◌==◌,
  ◌%◌, update, subst, Bool-cases,
}
use ignium.Base.Counting.{count}
use ignium.Elf.{word_limit}
use ignium.Sched.{
  Scheduler, Thread, ready, running, blocked, exited, is_ready, is_running, ThreadState, max_harts,
  prio_levels, put_thread, put_queue, enqueue, drop_first, remove_from, remove_from_ready, eff_prio,
}
use ignium.Sched.Inheritance.{IsQueued}
use ignium.Sched.Running.{IsManned, all_on, IsQueued-Agree, enqueue-IsQueued}
use ignium.Sched.Leaving.{reschedule-IsManned}
use ignium.Sched.Manned.{Left, Left-IsManned, not_both, ticks-IsManned}
use ignium.Sched.Blocking.{put_running-IsManned}
use ignium.Sched.Switch.{block_resumed, reschedule, reset_ticks}
use ignium.Sched.Preempt.{
  on_tick, preempt, run_frame, keeps_slice, any_level, expanded, expand_ctx_to_frame,
}

drop_first-none : (id : ℕ) (q : List ℕ) → count id q ≡ 0 → drop_first id q ≡ none
unfolding drop_first
drop_first-none id [] h = refl
drop_first-none id (x ∷ q) h = ground (arith, h, drop_first-none id q)

remove_from-absent :
    (id hart l n : ℕ) (s : Scheduler)
    → ((k : ℕ) → count id (s.ready_queues hart k) ≡ 0)
    → remove_from id hart l n s ≡ s
unfolding remove_from
remove_from-absent id hart l zero s h = refl
remove_from-absent id hart l (suc n) s h =
    rw (remove_from, drop_first-none id (s.ready_queues hart l) (h l))
      (remove_from-absent id hart (suc l) n s h)

-- A thread that is not ready stands in no queue.
pub remove_from_ready-absent :
    (id : ℕ) (s : Scheduler)
    → IsQueued s
    → is_ready (s.threads id).state ≡ false
    → remove_from_ready id s ≡ s
unfolding remove_from_ready
remove_from_ready-absent id s v out =
    remove_from-absent id (s.threads id).hart 0 prio_levels s
      (λ k. ground (arith, v.placed (s.threads id).hart k id, out))

pub run_frame-IsManned :
    (gp next : ℕ) (s : Scheduler)
    → IsManned s all_on
    → is_running (s.threads next).state ≡ true
    → (s.threads next).state ≡ running
    → IsManned (run_frame gp next s) all_on
unfolding run_frame expand_ctx_to_frame
run_frame-IsManned gp next s v go is = elim (Bool-cases (s.threads next).frame_valid) [
  | inl e ↦ rw (run_frame, e) v
  | inr e ↦
      rw (run_frame, e)
        (put_running-IsManned all_on next s
          (record (s.threads next) {
            frame =
                expanded gp (s.threads next).ctx.ra (s.threads next).ctx.sp (s.threads next).ctx.s;
            frame_valid = true;
            ctx_valid = false;
            woken = false;
          })
          v go is refl refl refl)
]

running_of : (t : ThreadState) → is_running t ≡ true → t ≡ running
running_of running h = refl
running_of ready h = ground (arith, h)
running_of blocked h = ground (arith, h)
running_of exited h = ground (arith, h)

-- The interrupted thread is queued and the core goes on.
preempted-IsManned :
    (hart : ℕ) (frame : ℕ → ℕ) (s : Scheduler)
    → IsManned s all_on
    → hart < max_harts
    → IsManned
        (reschedule hart false (
          enqueue (s.current hart) (
            put_thread s (s.current hart) (record (s.threads (s.current hart)) {
              frame = frame;
              frame_valid = true;
              ctx_valid = false;
              state = ready;
            })))).1
        all_on
unfolding put_thread enqueue put_queue eff_prio
preempted-IsManned hart frame s v low =
    reschedule-IsManned hart false s2 (Left-IsManned hart s s2 left queued low v) low (ground arith)
      (λ _. (cur, ground arith, ground (arith, runs), ground arith))
  where
    cur : ℕ
    cur = s.current hart

    runs : (is_running (s.threads cur).state ≡ true) × ((s.threads cur).hart ≡ hart)
    runs = v.current hart low refl

    caught : Thread
    caught = record (s.threads cur) {
      frame = frame;
      frame_valid = true;
      ctx_valid = false;
      state = ready;
    }

    asleep : Scheduler
    asleep = put_thread s cur (record caught { state = exited })

    s2 : Scheduler
    s2 = enqueue cur (put_thread s cur caught)

    -- `enqueue` makes the thread ready itself, so the state written before it does not matter.
    queued : IsQueued s2
    queued =
        let q =
          enqueue-IsQueued cur asleep
            (IsQueued-Agree s asleep
              (record {
                is = λ q. ground (arith, not_both (s.threads cur).state runs.0);
                prio = λ q. ground arith;
                proc = λ q. ground arith;
                hart = λ q. ground arith;
                queues = λ k l. refl;
                donations = refl;
              })
              v.queued)
            (omega (arith, v.table, v.known cur (ground (arith, runs)))) (ground arith) in
        IsQueued-Agree (enqueue cur asleep) s2
          (record {
            is = λ q. ground arith;
            prio = λ q. ground arith;
            proc = λ q. ground arith;
            hart = λ q. ground arith;
            queues = λ k l. ground arith;
            donations = refl;
          })
          q

    left : Left hart s s2
    left = record {
      others = λ q o. ground (arith, o);
      stopped = ground arith;
      hart = ground arith;
      fit = λ _. ground arith;
      idle_queued = λ _. ground arith;
      current = refl;
      idle = refl;
      thread_count = refl;
    }

reschedule-current :
    (h : ℕ) (need : Bool) (s : Scheduler)
    → (reschedule h need s).1.current h ≡ (reschedule h need s).0
unfolding reschedule
reschedule-current h need s = ground arith

preempt-IsManned :
    (gp hart : ℕ) (frame : ℕ → ℕ) (s : Scheduler)
    → IsManned s all_on
    → hart < max_harts
    → IsManned (preempt gp hart frame s).1 all_on
unfolding preempt
preempt-IsManned gp hart frame s v low = elim (Bool-cases (r.0 == cur)) [
  | inl e ↦
      rw
        (
          preempt,
          e,
          remove_from_ready-absent cur r.1 next.queued (not_both (r.1.threads cur).state (runs e)),
        )
        (put_running-IsManned all_on cur r.1
          (record (r.1.threads cur) { state = running; frame_valid = true; ctx_valid = false }) next
          (runs e) refl refl refl refl)
  | inr e ↦ rw (preempt, e) (run_frame-IsManned gp r.0 r.1 next chosen (running_of _ chosen))
]
  where
    cur : ℕ
    cur = s.current hart

    s1 : Scheduler
    s1 = put_thread s cur (record (s.threads cur) {
      frame = frame;
      frame_valid = true;
      ctx_valid = false;
      state = ready;
    })

    r : ℕ × Scheduler
    r = reschedule hart false (enqueue cur s1)

    next : IsManned r.1 all_on
    next = preempted-IsManned hart frame s v low

    chosen : is_running (r.1.threads r.0).state ≡ true
    chosen =
        subst (λ q. is_running (r.1.threads q).state ≡ true)
          (reschedule-current hart false (enqueue cur s1)) (next.current hart low refl).0

    runs : (r.0 == cur) ≡ true → is_running (r.1.threads cur).state ≡ true
    runs e =
        let same : r.0 ≡ cur = ground (arith, e) in
        subst (λ q. is_running (r.1.threads q).state ≡ true) same chosen

pub on_tick-IsManned :
    (gp hart : ℕ) (frame : ℕ → ℕ) (s : Scheduler)
    → IsManned s all_on
    → hart < max_harts
    → IsManned (on_tick gp hart frame s).1 all_on
unfolding on_tick reset_ticks
on_tick-IsManned gp hart frame s v low =
    go (keeps_slice hart s1) (any_level s2 hart (s2.current hart) 0 prio_levels) refl refl
  where
    s1 : Scheduler
    s1 = record s { ticks_run = update s.ticks_run hart ((s.ticks_run hart + 1) % word_limit) }

    s2 : Scheduler
    s2 = reset_ticks hart s1

    v1 : IsManned s1 all_on
    v1 = ticks-IsManned s1.ticks_run all_on s v

    v2 : IsManned s2 all_on
    v2 = ticks-IsManned s2.ticks_run all_on s1 v1

    go :
        (a b : Bool)
        → keeps_slice hart s1 ≡ a
        → any_level s2 hart (s2.current hart) 0 prio_levels ≡ b
        → IsManned (on_tick gp hart frame s).1 all_on
    go true b e f = rw (on_tick, e) v1
    go false false e f = rw (on_tick, e, f) v2
    go false true e f = rw (on_tick, e, f) (preempt-IsManned gp hart frame s2 v2 low)

-- The thread that comes back from blocking is running, so it stands in no queue.
pub block_resumed-IsManned :
    (h : ℕ) (s : Scheduler)
    → IsManned s all_on
    → h < max_harts
    → IsManned (block_resumed h s) all_on
unfolding block_resumed
block_resumed-IsManned h s v low =
    let runs = (v.current h low refl).0 in
    let t = s.threads (s.current h) in
    let gone = remove_from_ready-absent (s.current h) s v.queued (not_both t.state runs) in
    rw gone (
      put_running-IsManned all_on (s.current h) s (record t { woken = false }) v runs
        (running_of t.state runs) refl refl refl)
