-- ===== src/Sched/Blocking.antt =====
-- Blocking (kernel/src/sched.rs: `block_current`, `block_user_from_trap`) and the threads that run.
use ignium.Base.{
  ℕ, ◌<◌, ◌≡◌, refl, Bool, true, false, inl, inr, arith, Option, none, some, ◌==◌, Bool-cases,
  is_some,
}
use ignium.Sched.{Scheduler, Thread, IpcWake, running, blocked, is_running, max_harts, put_thread}
use ignium.Sched.Donations.{revoke_donations}
use ignium.Sched.Inheritance.{revoke_donations-Requeued}
use ignium.Sched.Kept.{revoke_donations-Kept}
use ignium.Sched.Running.{IsManned, all_on, IsQueued-Agree, Requeued-IsManned}
use ignium.Sched.Manned.{not_both, blocked-IsManned}
use ignium.Sched.Switch.{take_wake, block_current, block_user_from_trap}

-- A running thread whose saved state and scheduling do not change.
pub put_running-IsManned :
    (on : ℕ → Bool) (id : ℕ) (s : Scheduler) (t : Thread)
    → IsManned s on
    → is_running (s.threads id).state ≡ true
    → t.state ≡ running
    → t.prio ≡ (s.threads id).prio
    → t.proc ≡ (s.threads id).proc
    → t.hart ≡ (s.threads id).hart
    → IsManned (put_thread s id t) on
unfolding put_thread
put_running-IsManned on id s t v go st a b c = record {
  queued =
      IsQueued-Agree s (put_thread s id t)
        (record {
          is = λ q. ground (arith, st, not_both (s.threads id).state go);
          prio = λ q. ground (arith, a);
          proc = λ q. ground (arith, b);
          hart = λ q. ground (arith, c);
          queues = λ k l. refl;
          donations = refl;
        })
        v.queued;
  current = λ h low o. ground (arith, st, c, v.current h low o);
  idle = λ h low. ground (arith, st, c, v.idle h low, go);
  only = λ q r. ground (arith, st, c, v.only q, v.only id go, r);
  fit = λ q r. ground (arith, st, v.fit q, r);
  known = λ q r. ground (arith, st, v.known q, v.known id, go, r);
  table = v.table;
}

take_wake-IsManned :
    (h : ℕ) (s : Scheduler)
    → IsManned s all_on
    → h < max_harts
    → IsManned (take_wake (s.current h) s) all_on
unfolding take_wake
take_wake-IsManned h s v low =
    let cur = s.current h in
    let t : Thread = record (s.threads cur) { ipc_wake = none; state = running } in
    let w = put_running-IsManned all_on cur s t v (v.current h low refl).0 refl refl refl refl in
    Requeued-IsManned (put_thread s cur t) (revoke_donations cur (put_thread s cur t)) all_on
      (revoke_donations-Requeued cur (put_thread s cur t) w.queued)
      (revoke_donations-Kept cur (put_thread s cur t)) w

pub block_current-IsManned :
    (h : ℕ) (s : Scheduler)
    → IsManned s all_on
    → h < max_harts
    → (s.current h == s.idle h) ≡ false
    → IsManned (block_current h s).1 all_on
unfolding block_current
block_current-IsManned h s v low busy = elim (Bool-cases (is_some t.ipc_wake)) [
  | inl e ↦ rw (block_current, e) (take_wake-IsManned h s v low)
  | inr e ↦ elim (Bool-cases t.woken) [
    | inl w ↦
        rw (block_current, e, not_both t.state runs, w)
          (put_running-IsManned all_on (s.current h) s (record t { state = running; woken = false })
            v runs refl refl refl refl)
    | inr w ↦
        rw (block_current, e, not_both t.state runs, w)
          (blocked-IsManned h s
            (record t { state = blocked; frame_valid = false; ctx_valid = true; woken = false }) v
            low busy refl refl refl refl refl)
  ]
]
  where
    t : Thread
    t = s.threads (s.current h)

    runs : is_running t.state ≡ true
    runs = (v.current h low refl).0

pub block_user_from_trap-IsManned :
    (h : ℕ) (frame : ℕ → ℕ) (s : Scheduler)
    → IsManned s all_on
    → h < max_harts
    → (s.current h == s.idle h) ≡ false
    → IsManned (block_user_from_trap h frame s).1 all_on
unfolding block_user_from_trap
block_user_from_trap-IsManned h frame s v low busy = go (s.threads (s.current h)).ipc_wake refl
  where
    go :
        (o : Option IpcWake)
        → (s.threads (s.current h)).ipc_wake ≡ o
        → IsManned (block_user_from_trap h frame s).1 all_on
    go (some w) e = rw (block_user_from_trap, e) (take_wake-IsManned h s v low)
    go none e =
        rw (block_user_from_trap, e)
          (blocked-IsManned h s
            (record (s.threads (s.current h)) {
              frame = frame;
              frame_valid = true;
              ctx_valid = false;
              woken = false;
              state = blocked;
            })
            v low busy refl refl refl refl refl)
