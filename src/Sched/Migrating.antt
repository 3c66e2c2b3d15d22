-- ===== src/Sched/Migrating.antt =====
-- Moving a thread to another core (kernel/src/sched.rs: `remove_from_ready`, `set_affinity`).
use ignium.Base.{
  ℕ, zero, suc, ◌+◌, ◌≤◌, ◌<◌, ◌≡◌, ◌≢◌, refl, Bool, true, false, arith, Option, none, some, List,
  [], ◌∷◌, ◌==◌, ltb, if◌then◌else◌, subst, ap,
}
use ignium.Base.Counting.{count}
use ignium.Sched.{
  Scheduler, is_ready, is_running, is_blocked, ThreadState, ready, running, blocked, exited,
  max_harts, prio_levels, eff_prio, drop_first, remove_from, remove_from_ready, put_queue,
  put_thread, enqueue,
}
use ignium.Sched.Queues.{Placed, PlacedBut, enqueue-PlacedBut, eff_prio-enqueue}
use ignium.Sched.Inheritance.{Placed-ext, eff_prio_le}
use ignium.Sched.Running.{IsManned, all_on, eff_prio-Agree}
use ignium.Sched.Switch.{set_affinity}

none≢queue : {xs : List ℕ} → none ≢ some xs
none≢queue h = cc h

-- What the removal from one queue does to the counts.
abbrev Dropped : ℕ → List ℕ → Option (List ℕ) → Type 0
Dropped id q none = count id q ≡ 0
Dropped id q (some q') =
    (0 < count id q) × ((a : ℕ) → count a q ≡ (if id == a then 1 else 0) + count a q')

drop_first-Dropped : (id : ℕ) (q : List ℕ) → Dropped id q (drop_first id q)
unfolding drop_first
drop_first-Dropped id [] = refl
drop_first-Dropped id (x ∷ q) = go (x == id) refl (drop_first id q) (drop_first-Dropped id q)
  where
    go :
        (b : Bool)
        → (x == id) ≡ b
        → (o : Option (List ℕ)) → Dropped id q o
        → Dropped id
            (x ∷ q)
            (if b then some q else elim o [ none ↦ none | some ys ↦ some (x ∷ ys) ])
    go true e o d = (ground (arith, e), λ a. ground (arith, e))
    go false e none d = ground (arith, e, d)
    go false e (some ys) d = (ground (arith, e, d.0), λ a. ground (arith, e, d.1 a))

-- Only the queues change.
pub record Requeue (s s' : Scheduler) : Type 0 where
  pub threads : s'.threads ≡ s.threads
  pub donations : s'.donations ≡ s.donations
  pub current : s'.current ≡ s.current
  pub idle : s'.idle ≡ s.idle
  pub thread_count : s'.thread_count ≡ s.thread_count

remove_from-PlacedBut :
    (id l n : ℕ) (s : Scheduler) (lev : ℕ → ℕ)
    → Placed s lev
    → is_ready (s.threads id).state ≡ true
    → l ≤ lev id
    → lev id < l + n
    → PlacedBut (remove_from id (s.threads id).hart l n s) lev (id ∷ [])
      × Requeue s (remove_from id (s.threads id).hart l n s)
unfolding remove_from put_queue
remove_from-PlacedBut id l zero s lev v r lo hi = ground (arith, lo, hi)
remove_from-PlacedBut id l (suc n) s lev v r lo hi =
    go (drop_first id (s.ready_queues (s.threads id).hart l)) refl
      (drop_first-Dropped id (s.ready_queues (s.threads id).hart l))
      (λ more. remove_from-PlacedBut id (suc l) n s lev v r more (omega (arith, hi)))
  where
    go :
        (o : Option (List ℕ))
        → drop_first id (s.ready_queues (s.threads id).hart l) ≡ o
        → Dropped id (s.ready_queues (s.threads id).hart l) o
        → (l < lev id
            → PlacedBut (remove_from id (s.threads id).hart (suc l) n s) lev (id ∷ [])
              × Requeue s (remove_from id (s.threads id).hart (suc l) n s))
        → PlacedBut (remove_from id (s.threads id).hart l (suc n) s) lev (id ∷ [])
          × Requeue s (remove_from id (s.threads id).hart l (suc n) s)
    go none e d rec =
        rw (remove_from, e) (rec (ground (arith, v (s.threads id).hart l id, r, d, lo)))
    go (some q) e d rec =
        rw (remove_from, e)
          (
            (λ h k a. ground (arith, v h k a, v (s.threads id).hart l id, d.0, d.1 a, r)),
            record {
              threads = refl;
              donations = refl;
              current = refl;
              idle = refl;
              thread_count = refl;
            },
          )

migrated-Placed :
    (id h : ℕ) (s s1 : Scheduler)
    → PlacedBut s1 (eff_prio s) (id ∷ [])
    → Requeue s s1
    → Placed
        (enqueue id (put_thread s1 id (record (s1.threads id) { hart = h })))
        (eff_prio (enqueue id (put_thread s1 id (record (s1.threads id) { hart = h }))))
unfolding put_thread
migrated-Placed id h s s1 placed q1 =
    Placed-ext (enqueue id s2) (eff_prio s2) (eff_prio (enqueue id s2)) (eff_prio-enqueue s2 id)
      (λ k l q. ground (arith, enqueue-PlacedBut s2 (eff_prio s2) id [] but refl refl k l q))
  where
    s2 : Scheduler
    s2 = put_thread s1 id (record (s1.threads id) { hart = h })

    at : (q : ℕ) → s1.threads q ≡ s.threads q
    at q = ap (λ g. g q) q1.threads

    level : (a : ℕ) → eff_prio s2 a ≡ eff_prio s a
    level a =
        eff_prio-Agree s s2 a (ground (arith, at a, at id)) (ground (arith, at a, at id))
          q1.donations

    but : PlacedBut s2 (eff_prio s2) (id ∷ [])
    but k l a = ground (arith, placed k l a, at a, level a)

-- A ready thread that is not an idle thread is moved to the queue of its new core.
migrated-IsManned :
    (id h : ℕ) (s s1 : Scheduler)
    → IsManned s all_on
    → h < max_harts
    → ((k : ℕ) → k < max_harts → (s.idle k == id) ≡ false)
    → is_ready (s.threads id).state ≡ true
    → is_running (s.threads id).state ≡ false
    → PlacedBut s1 (eff_prio s) (id ∷ [])
    → Requeue s s1
    → IsManned (enqueue id (put_thread s1 id (record (s1.threads id) { hart = h }))) all_on
unfolding enqueue put_thread put_queue
migrated-IsManned id h s s1 v low plain r off placed q1 = record {
  queued = record {
    sane = record {
      thread = λ q. ground (arith, at q, at id, v.queued.sane.thread q, v.queued.sane.thread id, r);
      hart = λ q. ground (arith, at q, at id, v.queued.sane.hart q, low);
      prio = λ q. ground (arith, at q, at id, v.queued.sane.prio q);
    };
    placed = migrated-Placed id h s s1 placed q1;
    few = rw (q1.donations) v.queued.few;
  };
  current =
      λ k small _. ground (arith, at (s.current k), at id, q1.current, v.current k small refl, off);
  idle = λ k small. ground (arith, at (s.idle k), at id, q1.idle, v.idle k small, plain k small);
  only = λ q go. ground (arith, at q, at id, q1.current, q1.idle, v.only q, go);
  fit = λ q go. ground (arith, at q, at id, v.fit q, v.fit id, r, go);
  known = λ q go. ground (arith, at q, at id, v.known q, v.known id, q1.thread_count, r, go);
  table = rw (q1.thread_count) v.table;
}
  where
    at : (q : ℕ) → s1.threads q ≡ s.threads q
    at q = ap (λ g. g q) q1.threads

scheduler_of : {x y : Scheduler} → some x ≡ some y → x ≡ y
scheduler_of h = cc h

none≢scheduler : {x : Scheduler} → none ≢ some x
none≢scheduler h = cc h

not_running : (t : ThreadState) → is_ready t ≡ true → is_running t ≡ false
not_running ready h = refl
not_running running h = ground (arith, h)
not_running blocked h = ground (arith, h)
not_running exited h = ground (arith, h)

pub set_affinity-IsManned :
    (id hart : ℕ) (s s' : Scheduler)
    → IsManned s all_on
    → ((k : ℕ) → k < max_harts → (s.idle k == id) ≡ false)
    → is_ready (s.threads id).state ≡ true
    → set_affinity id hart s ≡ some s'
    → IsManned s' all_on
unfolding set_affinity remove_from_ready
set_affinity-IsManned id hart s s' v plain r e =
    go (ltb id s.thread_count) (is_ready (s.threads id).state) r ((s.threads id).hart == h) e
  where
    h : ℕ
    h = if ltb hart max_harts then hart else 3

    moved : Scheduler
    moved = remove_from id (s.threads id).hart 0 prio_levels s

    go :
        (a b : Bool)
        → b ≡ true
        → (c : Bool)
        → ◌≡◌ {A = Option Scheduler}
            (if a
              then if b
                then if c
                  then some s
                  else some
                      (enqueue id (put_thread moved id (record (moved.threads id) { hart = h })))
                else if is_blocked (s.threads id).state
                then some (put_thread s id (record (s.threads id) { hart = h }))
                else none
              else none)
            (some s')
        → IsManned s' all_on
    go false b x c f = elim (none≢scheduler f) [ ]
    go true false x c f = ground (arith, x)
    go true true x true f = subst (λ u. IsManned u all_on) (scheduler_of f) v
    go true true x false f =
        let (but, same) =
          remove_from-PlacedBut id 0 prio_levels s (eff_prio s) v.queued.placed r (omega arith)
            (omega (arith, eff_prio_le s id, v.queued.sane.prio id)) in
        subst (λ u. IsManned u all_on) (scheduler_of f)
          (migrated-IsManned id h s moved v (ground arith) plain r
            (not_running (s.threads id).state r) but same)
