-- ===== src/Sched/Waking.antt =====
-- Waking threads (kernel/src/sched.rs) and the threads that run.
use ignium.Base.{
  ℕ, ◌<◌, ◌≡◌, refl, true, false, inl, inr, arith, Option, none, some, ltb, update, Bool-cases,
}
use ignium.Ipc.{Msg}
use ignium.Sched.{
  wake_msg, wake_err, Scheduler, Thread, ThreadState, ready, running, blocked, exited, is_ready,
  is_running, is_blocked, put_thread, put_queue, enqueue,
}
use ignium.Sched.Donations.{revoke_donations}
use ignium.Sched.Inheritance.{revoke_donations-Requeued}
use ignium.Sched.Kept.{revoke_donations-Kept}
use ignium.Sched.Running.{IsManned, all_on, IsQueued-Agree, enqueue-IsQueued, Requeued-IsManned}
use ignium.Sched.Wakes.{
  wake, wake_blocked, ipc_wake_with_msg, ipc_wake_with_err, words_of, with_words, all_words,
}
use ignium.Sched.Switch.{past_ecall, x_a0}

-- A thread whose state and scheduling do not change.
put_same-IsManned :
    (id : ℕ) (s : Scheduler) (t : Thread)
    → IsManned s all_on
    → t.state ≡ (s.threads id).state
    → t.prio ≡ (s.threads id).prio
    → t.proc ≡ (s.threads id).proc
    → t.hart ≡ (s.threads id).hart
    → t.frame_valid ≡ (s.threads id).frame_valid
    → t.ctx_valid ≡ (s.threads id).ctx_valid
    → IsManned (put_thread s id t) all_on
unfolding put_thread
put_same-IsManned id s t v st a b c e f = record {
  queued =
      IsQueued-Agree s (put_thread s id t)
        (record {
          is = λ q. ground (arith, st);
          prio = λ q. ground (arith, a);
          proc = λ q. ground (arith, b);
          hart = λ q. ground (arith, c);
          queues = λ k l. refl;
          donations = refl;
        })
        v.queued;
  current = λ h low o. ground (arith, st, c, v.current h low o);
  idle = λ h low. ground (arith, st, c, v.idle h low);
  only = λ q r. ground (arith, st, c, v.only q, r);
  fit = λ q r. ground (arith, st, e, f, v.fit q, r);
  known = λ q r. ground (arith, st, v.known q, r);
  table = v.table;
}

-- A blocked thread is queued.
enqueue-IsManned :
    (id : ℕ) (s : Scheduler)
    → IsManned s all_on
    → id < s.thread_count
    → is_blocked (s.threads id).state ≡ true
    → IsManned (enqueue id s) all_on
unfolding enqueue put_thread put_queue
enqueue-IsManned id s v small waits = record {
  queued =
      enqueue-IsQueued id s v.queued (omega (arith, small, v.table))
        (only_blocked (s.threads id).state waits).0;
  current =
      λ h low o. ground (arith, v.current h low o, (only_blocked (s.threads id).state waits).1);
  idle = λ h low. ground (arith, v.idle h low);
  only = λ q r. ground (arith, v.only q, r);
  fit = λ q r. ground (arith, v.fit q, v.fit id, waits, r);
  known = λ q r. ground (arith, small, v.known q, r);
  table = v.table;
}
  where
    only_blocked :
        (t : ThreadState) → is_blocked t ≡ true → (is_ready t ≡ false) × (is_running t ≡ false)
    only_blocked blocked h = (refl, refl)
    only_blocked ready h = ground (arith, h)
    only_blocked running h = ground (arith, h)
    only_blocked exited h = ground (arith, h)

pub wake-IsManned :
    (my_hart id : ℕ) (s : Scheduler) → IsManned s all_on → IsManned (wake my_hart id s).1 all_on
unfolding wake put_thread
wake-IsManned my_hart id s v = elim (Bool-cases (ltb id s.thread_count)) [
  | inr e ↦ rw (wake, e) v
  | inl e ↦ elim (Bool-cases (is_blocked (s.threads id).state)) [
    | inl b ↦
        rw (wake, e, b) (enqueue-IsManned id s1 marked (ground (arith, e)) (ground (arith, b)))
    | inr b ↦ rw (wake, e, b) marked
  ]
]
  where
    s1 : Scheduler
    s1 = put_thread s id (record (s.threads id) { woken = true })

    marked : IsManned s1 all_on
    marked =
        put_same-IsManned id s (record (s.threads id) { woken = true }) v refl refl refl refl refl
          refl

-- The end of a wake of a blocked thread.
wake_blocked-IsManned :
    (my_hart tid : ℕ) (s : Scheduler)
    → IsManned s all_on
    → tid < s.thread_count
    → is_blocked (s.threads tid).state ≡ true
    → IsManned (wake_blocked my_hart tid s).1 all_on
unfolding wake_blocked
wake_blocked-IsManned my_hart tid s v small waits =
    let w = enqueue-IsManned tid s v small waits in
    Requeued-IsManned (enqueue tid s) (revoke_donations tid (enqueue tid s)) all_on
      (revoke_donations-Requeued tid (enqueue tid s) w.queued)
      (revoke_donations-Kept tid (enqueue tid s)) w

pub ipc_wake_with_msg-IsManned :
    (my_hart tid : ℕ) (msg : Option Msg) (s : Scheduler)
    → IsManned s all_on
    → tid < s.thread_count
    → IsManned (ipc_wake_with_msg my_hart tid msg s).1 all_on
unfolding ipc_wake_with_msg put_thread
ipc_wake_with_msg-IsManned my_hart tid msg s v small =
    elim (Bool-cases (is_blocked (s.threads tid).state)) [
      | inl b ↦
          rw (ipc_wake_with_msg, b)
            (wake_blocked-IsManned my_hart tid _
              (put_same-IsManned tid s
                (record (s.threads tid) {
                  frame = past_ecall (with_words msg (update (s.threads tid).frame x_a0 0));
                  ipc_msg = msg;
                  ipc_wake = none;
                })
                v refl refl refl refl refl refl)
              small (ground (arith, b)))
      | inr b ↦
          rw (ipc_wake_with_msg, b)
            (put_same-IsManned tid s
              (record (s.threads tid) {
                ipc_msg = some (words_of msg);
                ipc_wake = some (wake_msg (words_of msg));
              })
              v refl refl refl refl refl refl)
    ]

pub ipc_wake_with_err-IsManned :
    (my_hart tid code : ℕ) (s : Scheduler)
    → IsManned s all_on
    → tid < s.thread_count
    → IsManned (ipc_wake_with_err my_hart tid code s).1 all_on
unfolding ipc_wake_with_err put_thread
ipc_wake_with_err-IsManned my_hart tid code s v small =
    elim (Bool-cases (is_blocked (s.threads tid).state)) [
      | inl b ↦
          rw (ipc_wake_with_err, b)
            (wake_blocked-IsManned my_hart tid _
              (put_same-IsManned tid s
                (record (s.threads tid) {
                  frame = past_ecall (update (s.threads tid).frame x_a0 code);
                  ipc_msg = some (all_words code);
                  ipc_wake = none;
                })
                v refl refl refl refl refl refl)
              small (ground (arith, b)))
      | inr b ↦
          rw (ipc_wake_with_err, b)
            (put_same-IsManned tid s
              (record (s.threads tid) {
                ipc_msg = some (all_words code);
                ipc_wake = some (wake_err code);
              })
              v refl refl refl refl refl refl)
    ]
