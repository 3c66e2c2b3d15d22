-- ===== src/Sched/Delivery.antt =====
-- Delivering a message to a thread that is about to block (kernel/src/sched.rs), in either order.
use ignium.Base.{
  ℕ, zero, suc, ◌≡◌, refl, Bool, true, false, arith, Option, none, some, List, [], ◌∷◌, ◌++◌, ◌==◌,
  if◌then◌else◌, length, update, subst, sym, ◌∙◌, ap, not,
}
use ignium.Base.Counting.{apart}
use ignium.Ipc.{Msg}
use ignium.Sched.Picks.{some-injective}
use ignium.Sched.{
  Scheduler, Thread, pick_level, eligible, blocked, is_ready, is_blocked, put_thread, put_queue,
  enqueue, pick_from, pick_next, prio_levels, fallback,
}
use ignium.Sched.Kept.{revoke_donations-Kept, enqueue-Kept}
use ignium.Sched.Switch.{
  resumed, block_user_from_trap, apply_wake, put_words, past_ecall, x_a0, switch_from, reschedule,
  reset_ticks,
}
use ignium.Sched.Wakes.{ipc_wake_with_msg, wake_blocked}

-- The wake comes first
early_wake :
    (h my_hart : ℕ) (msg : Msg) (frame : ℕ → ℕ) (s : Scheduler)
    → is_blocked (s.threads (s.current h)).state ≡ false
    → (block_user_from_trap h frame (ipc_wake_with_msg my_hart (s.current h) (some msg) s).1).0
      ≡ resumed (past_ecall (put_words msg (update frame x_a0 0)))
unfolding block_user_from_trap ipc_wake_with_msg put_thread apply_wake
early_wake h my_hart msg frame s awake = rw (ipc_wake_with_msg, awake) (ground arith)

-- Only a ready thread is picked.
pick_level-ready :
    (threads : ℕ → Thread) (need : Bool) (n : ℕ) (q : List ℕ) (id : ℕ)
    → (pick_level threads need n q).0 ≡ some id
    → is_ready (threads id).state ≡ true
unfolding pick_level
pick_level-ready threads need zero q id h = ground (arith, h)
pick_level-ready threads need (suc n) [] id h = ground (arith, h)
pick_level-ready threads need (suc n) (x ∷ q) id h =
    looked (pick_level-ready threads need n q id) (pick_level-ready threads need n (q ++ x ∷ []) id)
      (is_ready (threads x).state) (eligible need (threads x)) refl h
  where
    looked :
        ((pick_level threads need n q).0 ≡ some id → is_ready (threads id).state ≡ true)
        → ((pick_level threads need n (q ++ x ∷ [])).0 ≡ some id
            → is_ready (threads id).state ≡ true)
        → (live fit : Bool) → is_ready (threads x).state ≡ live
        → (if not live
            then pick_level threads need n q
            else if fit
            then (some x, q)
            else pick_level threads need n (q ++ x ∷ [])).0
          ≡ some id
        → is_ready (threads id).state ≡ true
    looked a b false fit e h = a h
    looked a b true false e h = b h
    looked a b true true e h = subst (λ y. is_ready (threads y).state ≡ true) (some-injective h) e

pick_from-unready :
    (hart : ℕ) (need : Bool) (l n : ℕ) (s : Scheduler) (q : ℕ)
    → is_ready (s.threads q).state ≡ false
    → (pick_from hart need l n s).1.threads q ≡ s.threads q
unfolding pick_from put_queue put_thread
pick_from-unready hart need l zero s q out = refl
pick_from-unready hart need l (suc n) s q out =
    go left.0 refl (pick_from-unready hart need (suc l) n (put_queue s hart l left.1) q out)
  where
    left : Option ℕ × List ℕ
    left = pick_level s.threads need (length (s.ready_queues hart l)) (s.ready_queues hart l)

    go :
        (o : Option ℕ)
        → left.0 ≡ o
        → (pick_from hart need (suc l) n (put_queue s hart l left.1)).1.threads q ≡ s.threads q
        → (pick_from hart need l (suc n) s).1.threads q ≡ s.threads q
    go none e rec = rw (pick_from, e) rec
    go (some id) e rec =
        let live = pick_level-ready s.threads need _ _ id e in
        let other : (id == q) ≡ false = apart (λ y. is_ready (s.threads y).state) id q live out in
        rw (pick_from, e, other) refl

switch_from-unready :
    (h cur : ℕ) (s : Scheduler) (q : ℕ)
    → is_ready (s.threads q).state ≡ false
    → (switch_from h cur s).1.threads q ≡ s.threads q
unfolding switch_from reschedule reset_ticks pick_next
switch_from-unready h cur s q out =
    go (pick_from h true 0 prio_levels (reset_ticks h s))
      (pick_from-unready h true 0 prio_levels (reset_ticks h s) q out)
  where
    go :
        (r : Option ℕ × Scheduler)
        → r.1.threads q ≡ s.threads q
        → (let c : ℕ × Scheduler = elim r.0 [
          | none ↦ (fallback h r.1, r.1)
          | some id ↦ (id, r.1)
        ] in
            c.1.threads q)
          ≡ s.threads q
    go (none, s') e = e
    go (some id, s') e = e

-- The block comes first
late_block :
    (h : ℕ) (frame : ℕ → ℕ) (s : Scheduler)
    → (s.threads (s.current h)).ipc_wake ≡ none
    → ((block_user_from_trap h frame s).1.threads (s.current h)).frame ≡ frame
      × ((block_user_from_trap h frame s).1.threads (s.current h)).state ≡ blocked
unfolding block_user_from_trap put_thread
late_block h frame s clear =
    let kept =
      switch_from-unready h (s.current h)
        (put_thread s (s.current h) (record (s.threads (s.current h)) {
          frame = frame;
          frame_valid = true;
          ctx_valid = false;
          woken = false;
          state = blocked;
        }))
        (s.current h) (ground arith) in
    rw (block_user_from_trap, clear)
      (ap (λ t. t.frame) kept ∙ ground arith, ap (λ t. t.state) kept ∙ ground arith)

late_wake :
    (my_hart tid : ℕ) (msg : Msg) (s : Scheduler)
    → is_blocked (s.threads tid).state ≡ true
    → ((ipc_wake_with_msg my_hart tid (some msg) s).1.threads tid).frame
      ≡ past_ecall (put_words msg (update (s.threads tid).frame x_a0 0))
unfolding ipc_wake_with_msg wake_blocked put_thread
late_wake my_hart tid msg s b =
    let s1 = put_thread s tid (record (s.threads tid) {
      frame = past_ecall (put_words msg (update (s.threads tid).frame x_a0 0));
      ipc_msg = some msg;
      ipc_wake = none;
    }) in
    rw (ipc_wake_with_msg, b)
      ((revoke_donations-Kept tid (enqueue tid s1)).frame tid
        ∙ ((enqueue-Kept tid s1).frame tid ∙ ground arith))

-- A message for a user thread that is about to block, whose wake comes before the block, makes
-- the system call return with the same frame that the thread resumes with when the block comes
-- first; the thread is not blocked yet and no other wake waits for it.
pub delivery :
    (h my_hart : ℕ) (msg : Msg) (frame : ℕ → ℕ) (s : Scheduler)
    → is_blocked (s.threads (s.current h)).state ≡ false
    → (s.threads (s.current h)).ipc_wake ≡ none
    → (block_user_from_trap h frame (ipc_wake_with_msg my_hart (s.current h) (some msg) s).1).0
      ≡ resumed
          ((ipc_wake_with_msg my_hart
              (s.current h)
              (some msg)
              (block_user_from_trap h frame s).1).1.threads
            (s.current h)).frame
delivery h my_hart msg frame s awake clear =
    let (saved, waits) = late_block h frame s clear in
    let late =
      late_wake my_hart (s.current h) msg (block_user_from_trap h frame s).1
        (ap is_blocked waits) in
    early_wake h my_hart msg frame s awake
    ∙ ap resumed (sym (late ∙ ap (λ f. past_ecall (put_words msg (update f x_a0 0))) saved))
