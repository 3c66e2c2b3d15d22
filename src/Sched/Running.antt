-- ===== src/Sched/Running.antt =====
-- The threads that run (kernel/src/sched.rs): what is asked of the cores' current and idle threads.
use ignium.Base.{
  ℕ, zero, suc, ◌≤◌, ◌<◌, ◌≡◌, refl, Bool, true, false, ◌&&◌, ◌||◌, arith, Option, none, some, List,
  [], ◌==◌, length, update, sym, ◌∙◌, not,
}
use ignium.Sched.{
  Scheduler, Thread, running, is_ready, is_running, is_blocked, max_harts, max_threads, enqueue,
  eff_prio, put_thread, put_queue, pick_from, pick_level,
}
use ignium.Sched.Queues.{enqueue-PlacedBut, eff_prio-enqueue}
use ignium.Sched.Inheritance.{IsSane, IsQueued, Requeued, Placed-ext}
use ignium.Sched.Kept.{Kept}

-- What the machine's running needs of the thread table: `h` is a core whose thread is giving it up, if
-- there is one.
pub record IsManned (s : Scheduler) (on : ℕ → Bool) : Type 0 where
  pub queued : IsQueued s
  pub current :
      (h : ℕ)
      → h < max_harts
      → on h ≡ true
      → (is_running (s.threads (s.current h)).state ≡ true) × ((s.threads (s.current h)).hart ≡ h)
  pub idle :
      (h : ℕ)
      → h < max_harts
      → ((s.threads (s.idle h)).hart ≡ h)
        × ((is_ready (s.threads (s.idle h)).state || is_running (s.threads (s.idle h)).state)
            ≡ true)
  pub only :
      (id : ℕ)
      → is_running (s.threads id).state ≡ true
      → ((on (s.threads id).hart && s.current (s.threads id).hart == id)
          || s.idle (s.threads id).hart == id)
        ≡ true
  pub fit :
      (id : ℕ)
      → (is_ready (s.threads id).state || is_blocked (s.threads id).state) ≡ true
      → ((s.threads id).ctx_valid || (s.threads id).frame_valid) ≡ true
  pub known :
      (id : ℕ)
      → (is_ready (s.threads id).state || is_running (s.threads id).state) ≡ true
      → id < s.thread_count
  pub table : s.thread_count ≤ max_threads

abbrev pub all_on : ℕ → Bool
all_on h = true

abbrev pub all_but : ℕ → ℕ → Bool
all_but h k = not (k == h)

-- Two states in which the queues and what decides them agree.
pub record Agree (s s' : Scheduler) : Type 0 where
  pub is : (id : ℕ) → is_ready (s'.threads id).state ≡ is_ready (s.threads id).state
  pub prio : (id : ℕ) → (s'.threads id).prio ≡ (s.threads id).prio
  pub proc : (id : ℕ) → (s'.threads id).proc ≡ (s.threads id).proc
  pub hart : (id : ℕ) → (s'.threads id).hart ≡ (s.threads id).hart
  pub queues : (h l : ℕ) → s'.ready_queues h l ≡ s.ready_queues h l
  pub donations : s'.donations ≡ s.donations

pub eff_prio-Agree :
    (s s' : Scheduler) (id : ℕ)
    → (s'.threads id).prio ≡ (s.threads id).prio
    → (s'.threads id).proc ≡ (s.threads id).proc
    → s'.donations ≡ s.donations
    → eff_prio s' id ≡ eff_prio s id
unfolding eff_prio
eff_prio-Agree s s' id a b c = rw (a, b, c) refl

pub IsQueued-Agree : (s s' : Scheduler) → Agree s s' → IsQueued s → IsQueued s'
IsQueued-Agree s s' a v = record {
  sane = record {
    thread = λ id h. v.sane.thread id (sym (a.is id) ∙ h);
    hart = λ id. rw (a.hart id) (v.sane.hart id);
    prio = λ id. rw (a.prio id) (v.sane.prio id);
  };
  placed = λ h l id. rw (a.queues h l) (
      ground (
        arith,
        v.placed h l id,
        a.is id,
        a.hart id,
        eff_prio-Agree s s' id (a.prio id) (a.proc id) a.donations,
      ));
  few = rw (a.donations) v.few;
}

enqueue-IsSane : (id : ℕ) (s : Scheduler) → IsSane s → id < max_threads → IsSane (enqueue id s)
unfolding enqueue put_queue put_thread
enqueue-IsSane id s v small = record {
  thread = λ q. ground (arith, v.thread q, small);
  hart = λ q. ground (arith, v.hart q, v.hart id);
  prio = λ q. ground (arith, v.prio q, v.prio id);
}

pub enqueue-IsQueued :
    (id : ℕ) (s : Scheduler)
    → IsQueued s
    → id < max_threads
    → is_ready (s.threads id).state ≡ false
    → IsQueued (enqueue id s)
unfolding enqueue
enqueue-IsQueued id s v small not_yet = record {
  sane = enqueue-IsSane id s v.sane small;
  placed =
      Placed-ext (enqueue id s) (eff_prio s) (eff_prio (enqueue id s)) (eff_prio-enqueue s id)
        (λ h l q. ground (
          arith,
          enqueue-PlacedBut s (eff_prio s) id []
              (λ h' l' q'. ground (arith, v.placed h' l' q', not_yet)) refl refl h l q,
        ));
  few = v.few;
}

-- The threads after a search that has found one, or none.
abbrev pub started : Option ℕ → (ℕ → Thread) → ℕ → Thread
started none f = f
started (some id) f = update f id (record (f id) { state = running })

-- What a search leaves alone.
pub record IsSearch (s : Scheduler) (r : Option ℕ × Scheduler) : Type 0 where
  pub threads : r.1.threads ≡ started r.0 s.threads
  pub donations : r.1.donations ≡ s.donations
  pub current : r.1.current ≡ s.current
  pub idle : r.1.idle ≡ s.idle
  pub thread_count : r.1.thread_count ≡ s.thread_count

pub pick_from-IsSearch :
    (hart : ℕ) (need : Bool) (l n : ℕ) (s : Scheduler) → IsSearch s (pick_from hart need l n s)
unfolding pick_from put_queue put_thread
pick_from-IsSearch hart need l zero s = record {
  threads = refl;
  donations = refl;
  current = refl;
  idle = refl;
  thread_count = refl;
}
pick_from-IsSearch hart need l (suc n) s =
    go left.0 refl (pick_from-IsSearch hart need (suc l) n (put_queue s hart l left.1))
  where
    left : Option ℕ × List ℕ
    left = pick_level s.threads need (length (s.ready_queues hart l)) (s.ready_queues hart l)

    go :
        (o : Option ℕ)
        → left.0 ≡ o
        → IsSearch
            (put_queue s hart l left.1)
            (pick_from hart need (suc l) n (put_queue s hart l left.1))
        → IsSearch s (pick_from hart need l (suc n) s)
    go none e rec =
        rw (pick_from, e)
          (record {
            threads = rec.threads;
            donations = rec.donations;
            current = rec.current;
            idle = rec.idle;
            thread_count = rec.thread_count;
          })
    go (some id) e rec =
        rw (pick_from, e)
          (record {
            threads = refl;
            donations = refl;
            current = refl;
            idle = refl;
            thread_count = refl;
          })

-- Rearranged queues: nothing else of the threads has changed.
pub Requeued-IsManned :
    (s s' : Scheduler) (on : ℕ → Bool) → Requeued s s' → Kept s s' → IsManned s on → IsManned s' on
Requeued-IsManned s s' on r k v = record {
  queued = r.queued;
  current = λ h low o.
      ground (arith, k.current, r.state (s.current h), r.hart (s.current h), v.current h low o);
  idle = λ h low. ground (arith, k.idle, r.state (s.idle h), r.hart (s.idle h), v.idle h low);
  only = λ id go. ground (arith, k.current, k.idle, r.state id, r.hart id, v.only id, go);
  fit = λ id go. ground (arith, k.ctx_valid id, k.frame_valid id, r.state id, v.fit id, go);
  known = λ id go. ground (arith, k.thread_count, r.state id, v.known id, go);
  table = rw (k.thread_count) v.table;
}
