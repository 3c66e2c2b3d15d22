-- ===== src/Sched/Queues.antt =====
-- The ready queues of kernel/src/sched.rs: which threads stand in them, and how often.
use ignium.Base.{
  ℕ, zero, suc, ◌+◌, ◌≤◌, ◌<◌, ◌≡◌, refl, Bool, true, false, ◌&&◌, List, [], ◌∷◌, inl, inr, arith,
  ◌==◌, ltb, leb, if◌then◌else◌, length, Bool-cases, ◌∙◌, not, take_all,
}
use ignium.Base.Counting.{count, keep, count-append, count-keep, length_le}
use ignium.Sched.{
  running, blocked, exited, ready, enqueue, put_queue, Scheduler, eff_prio, gather_levels,
  gather_harts, is_ready, put_thread, prio_levels, max_threads, max_harts, enqueue_all, ThreadState,
  retain_queues, requeue_proc_threads, belongs,
}

-- Every ready thread stands once in the queue of its core and of the level given, and no queue holds
-- anything else.
abbrev pub Placed : Scheduler → (ℕ → ℕ) → Type 0
Placed s lev =
    (h l id : ℕ)
    → count id (s.ready_queues h l) ≡ (
        if is_ready (s.threads id).state && ((s.threads id).hart == h && lev id == l) then 1 else 0)

-- The same but for the threads of a list, which stand in no queue.
abbrev pub PlacedBut : Scheduler → (ℕ → ℕ) → List ℕ → Type 0
PlacedBut s lev ids =
    (h l id : ℕ)
    → count id (s.ready_queues h l) ≡ (
        if count id ids == 0
          && (is_ready (s.threads id).state && ((s.threads id).hart == h && lev id == l))
        then 1
        else 0)

-- The ready threads are in the table, and their cores and levels are the machine's.
pub record InBounds (s : Scheduler) (lev : ℕ → ℕ) : Type 0 where
  pub thread : (id : ℕ) → is_ready (s.threads id).state ≡ true → id < max_threads
  pub hart : (id : ℕ) → is_ready (s.threads id).state ≡ true → (s.threads id).hart < max_harts
  pub level : (id : ℕ) → is_ready (s.threads id).state ≡ true → lev id < prio_levels

pub eff_prio-enqueue : (s : Scheduler) (id q : ℕ) → eff_prio (enqueue id s) q ≡ eff_prio s q
unfolding enqueue eff_prio put_queue put_thread
eff_prio-enqueue s id q = elim (Bool-cases (id == q)) [
  | inl e ↦ ground (arith, e)
  | inr e ↦ ground (arith, e)
]

-- A thread that stands in no queue is put at its effective priority.
pub enqueue-PlacedBut :
    (s : Scheduler) (lev : ℕ → ℕ) (id : ℕ) (ids : List ℕ)
    → PlacedBut s lev (id ∷ ids)
    → count id ids ≡ 0
    → lev id ≡ eff_prio s id
    → PlacedBut (enqueue id s) lev ids
unfolding enqueue put_queue put_thread
enqueue-PlacedBut s lev id ids v fresh e h l q =
    ground (arith, v h l q, fresh, e, count-append q (s.ready_queues h l) (id ∷ []))

count-gather_levels :
    (s : Scheduler) (lev : ℕ → ℕ) (p : ℕ → Bool) (h l n id : ℕ)
    → Placed s lev
    → count id (gather_levels s p h l n) ≡ (
        if p id
          && (is_ready (s.threads id).state
              && ((s.threads id).hart == h && (leb l (lev id) && ltb (lev id) (l + n))))
        then 1
        else 0)
unfolding gather_levels
count-gather_levels s lev p h l zero id v = ground arith
count-gather_levels s lev p h l (suc n) id v = ground (
  arith,
  count-append id (keep p (s.ready_queues h l)) (gather_levels s p h (suc l) n),
  count-keep p id (s.ready_queues h l),
  v h l id,
  count-gather_levels s lev p h (suc l) n id v,
)

count-gather_harts :
    (s : Scheduler) (lev : ℕ → ℕ) (p : ℕ → Bool) (h n id : ℕ)
    → Placed s lev
    → count id (gather_harts s p h n) ≡ (
        if p id
          && (is_ready (s.threads id).state
              && (leb h (s.threads id).hart
                  && (ltb (s.threads id).hart (h + n) && ltb (lev id) prio_levels)))
        then 1
        else 0)
unfolding gather_harts
count-gather_harts s lev p h zero id v = ground arith
count-gather_harts s lev p h (suc n) id v = ground (
  arith,
  count-append id (gather_levels s p h 0 prio_levels) (gather_harts s p (suc h) n),
  count-gather_levels s lev p h 0 prio_levels id v,
  count-gather_harts s lev p (suc h) n id v,
)

-- Every ready thread of the machine that passes the test is gathered, once.
pub count-gathered :
    (s : Scheduler) (lev : ℕ → ℕ) (p : ℕ → Bool) (id : ℕ)
    → Placed s lev
    → InBounds s lev
    → count id (gather_harts s p 0 max_harts)
      ≡ (if p id && is_ready (s.threads id).state then 1 else 0)
count-gathered s lev p id v b =
    ground (arith, count-gather_harts s lev p 0 max_harts id v, b.hart id, b.level id)

gathered_fit :
    (s : Scheduler) (lev : ℕ → ℕ) (p : ℕ → Bool)
    → Placed s lev
    → InBounds s lev
    → length (gather_harts s p 0 max_harts) ≤ max_threads
gathered_fit s lev p v b =
    length_le max_threads (gather_harts s p 0 max_harts)
      (λ a. ground (arith, count-gathered s lev p a v b))
      (λ a out. ground (arith, count-gathered s lev p a v b, b.thread a))

retained-PlacedBut :
    (s : Scheduler) (lev lev' : ℕ → ℕ) (p : ℕ → Bool)
    → Placed s lev
    → InBounds s lev
    → ((id : ℕ) → p id ≡ false → lev' id ≡ lev id)
    → PlacedBut (retain_queues (λ id. not (p id)) s) lev' (gather_harts s p 0 max_harts)
unfolding retain_queues
retained-PlacedBut s lev lev' p v b same h l id = ground (
  arith,
  count-keep (λ q. not (p q)) id (s.ready_queues h l),
  v h l id,
  same id,
  count-gathered s lev p id v b,
)

-- Threads that differ in their states only, and not in whether these are ready.
pub record SameThreads (s s' : Scheduler) : Type 0 where
  pub state : (id : ℕ) → (s'.threads id).state ≡ (s.threads id).state
  pub prio : (id : ℕ) → (s'.threads id).prio ≡ (s.threads id).prio
  pub proc : (id : ℕ) → (s'.threads id).proc ≡ (s.threads id).proc
  pub hart : (id : ℕ) → (s'.threads id).hart ≡ (s.threads id).hart
  pub donations : s'.donations ≡ s.donations

enqueue-SameThreads :
    (s : Scheduler) (id : ℕ) → (s.threads id).state ≡ ready → SameThreads s (enqueue id s)
unfolding enqueue put_queue put_thread
enqueue-SameThreads s id r = record {
  state = λ q. ground (arith, r);
  prio = λ q. ground arith;
  proc = λ q. ground arith;
  hart = λ q. ground arith;
  donations = refl;
}

enqueue_all-Placed :
    (ids : List ℕ) (s : Scheduler) (lev : ℕ → ℕ)
    → PlacedBut s lev ids
    → ((id : ℕ) → count id ids ≤ 1)
    → ((id : ℕ) → 0 < count id ids → (lev id ≡ eff_prio s id) × ((s.threads id).state ≡ ready))
    → Placed (enqueue_all ids s) lev × SameThreads s (enqueue_all ids s)
unfolding enqueue_all
enqueue_all-Placed [] s lev v once given = (
  λ h l id. ground (arith, v h l id),
  record {
    state = λ q. refl;
    prio = λ q. refl;
    proc = λ q. refl;
    hart = λ q. refl;
    donations = refl;
  },
)
enqueue_all-Placed (id ∷ ids) s lev v once given =
    let (level, is) = given id (ground arith) in
    let same = enqueue-SameThreads s id is in
    let (placed, rest) =
      enqueue_all-Placed ids (enqueue id s) lev
        (enqueue-PlacedBut s lev id ids v (ground (arith, once id)) level)
        (λ q. ground (arith, once q))
        (λ q more. (
          ground (arith, given q, eff_prio-enqueue s id q),
          same.state q ∙ (given q (ground (arith, more))).1,
        )) in
    (
      placed,
      record {
        state = λ q. rest.state q ∙ same.state q;
        prio = λ q. rest.prio q ∙ same.prio q;
        proc = λ q. rest.proc q ∙ same.proc q;
        hart = λ q. rest.hart q ∙ same.hart q;
        donations = rest.donations ∙ same.donations;
      },
    )

ready_of : (t : ThreadState) → is_ready t ≡ true → t ≡ ready
ready_of ready h = refl
ready_of running h = ground (arith, h)
ready_of blocked h = ground (arith, h)
ready_of exited h = ground (arith, h)

-- Rearranging a process's threads loses none and doubles none, and puts each at its effective priority.
pub requeue-Placed :
    (proc : ℕ) (s : Scheduler) (lev lev' : ℕ → ℕ)
    → Placed s lev
    → InBounds s lev
    → ((id : ℕ) → belongs s proc id ≡ true → lev' id ≡ eff_prio s id)
    → ((id : ℕ) → belongs s proc id ≡ false → lev' id ≡ lev id)
    → Placed (requeue_proc_threads proc s) lev' × SameThreads s (requeue_proc_threads proc s)
unfolding requeue_proc_threads retain_queues eff_prio
requeue-Placed proc s lev lev' v b own other =
    let p : ℕ → Bool = belongs s proc in
    let fit = take_all max_threads (gather_harts s p 0 max_harts) (gathered_fit s lev p v b) in
    let (placed, same) =
      enqueue_all-Placed (gather_harts s p 0 max_harts) (retain_queues (λ id. not (p id)) s) lev'
        (retained-PlacedBut s lev lev' p v b other)
        (λ id. ground (arith, count-gathered s lev p id v b))
        (λ id some. (
          own id (ground (arith, count-gathered s lev p id v b)),
          ready_of _ (ground (arith, count-gathered s lev p id v b)),
        )) in
    rw fit (
      placed,
      record {
        state = same.state;
        prio = same.prio;
        proc = same.proc;
        hart = same.hart;
        donations = same.donations;
      },
    )
