-- ===== src/Sched/Leaving.antt =====
-- A core that its thread gives up (kernel/src/sched.rs: `pick_next` and what follows it).
use ignium.Base.{
  ℕ, ◌<◌, ◌≡◌, refl, Bool, true, false, inl, inr, arith, Option, none, some, update, ap, Bool-cases,
}
use ignium.Sched.{
  Scheduler, is_ready, is_running, max_harts, prio_levels, eligible, fallback, eff_prio, pick_from,
  pick_next,
}
use ignium.Sched.Queues.{Placed}
use ignium.Sched.Picks.{Picked, pick_from-Picked}
use ignium.Sched.Inheritance.{Placed-ext, eff_prio_le}
use ignium.Sched.Running.{
  IsManned, all_on, all_but, IsSearch, pick_from-IsSearch, eff_prio-Agree, started,
}
use ignium.Sched.Switch.{reschedule}

-- The thread found is the core's.
pub found-IsManned :
    (s s' : Scheduler) (h id : ℕ)
    → IsManned s (all_but h)
    → IsSearch s (some id, s')
    → Placed s' (eff_prio s)
    → is_ready (s.threads id).state ≡ true
    → (s.threads id).hart ≡ h
    → IsManned (record s' { current = update s'.current h id }) all_on
found-IsManned s s' h id v f placed r home = record {
  queued = record {
    sane = record {
      thread = λ q. ground (arith, at q, v.queued.sane.thread q, v.queued.sane.thread id r);
      hart = λ q. ground (arith, at q, v.queued.sane.hart q, v.queued.sane.hart id);
      prio = λ q. ground (arith, at q, v.queued.sane.prio q, v.queued.sane.prio id);
    };
    placed =
        Placed-ext s' (eff_prio s) (eff_prio (record s' { current = update s'.current h id }))
          (λ q.
            eff_prio-Agree s (record s' { current = update s'.current h id }) q
              (ground (arith, at q)) (ground (arith, at q)) f.donations)
          placed;
    few = rw (f.donations) v.queued.few;
  };
  current = λ k low _. ground (arith, at (s.current k), at id, f.current, v.current k low, home, r);
  idle = λ k low. ground (arith, at (s.idle k), f.idle, v.idle k low);
  only = λ q go. ground (arith, at q, f.current, f.idle, v.only q, home, go);
  fit = λ q go. ground (arith, at q, v.fit q, go);
  known = λ q go. ground (arith, at q, v.known q, f.thread_count, go, r);
  table = rw (f.thread_count) v.table;
}
  where
    at : (q : ℕ) → s'.threads q ≡ started (some id) s.threads q
    at q = ap (λ g. g q) f.threads

-- None is found: the idle thread has not been queued, so it is the core's.
idle-IsManned :
    (s s' : Scheduler) (h : ℕ)
    → IsManned s (all_but h)
    → h < max_harts
    → IsSearch s (none, s')
    → Placed s' (eff_prio s)
    → is_ready (s.threads (s.idle h)).state ≡ false
    → is_running (s.threads (s.current h)).state ≡ false
    → IsManned (record s' { current = update s'.current h (fallback h s') }) all_on
idle-IsManned s s' h v low f placed rest off = record {
  queued = record {
    sane = record {
      thread = λ q. ground (arith, at q, v.queued.sane.thread q);
      hart = λ q. ground (arith, at q, v.queued.sane.hart q);
      prio = λ q. ground (arith, at q, v.queued.sane.prio q);
    };
    placed =
        Placed-ext s' (eff_prio s)
          (eff_prio (record s' { current = update s'.current h (fallback h s') }))
          (λ q.
            eff_prio-Agree s (record s' { current = update s'.current h (fallback h s') }) q
              (ground (arith, at q)) (ground (arith, at q)) f.donations)
          placed;
    few = rw (f.donations) v.queued.few;
  };
  current = λ k small _. ground (
    arith,
    chosen,
    at (s.current k),
    at (s.idle h),
    f.current,
    v.current k small,
    v.idle h low,
    rest,
  );
  idle = λ k small. ground (arith, at (s.idle k), f.idle, v.idle k small);
  only = λ q go. ground (arith, chosen, at q, f.current, f.idle, v.only q, go);
  fit = λ q go. ground (arith, at q, v.fit q, go);
  known = λ q go. ground (arith, at q, v.known q, f.thread_count, go);
  table = rw (f.thread_count) v.table;
}
  where
    at : (q : ℕ) → s'.threads q ≡ s.threads q
    at q = ap (λ g. g q) f.threads

    chosen : fallback h s' ≡ s.idle h
    chosen = ground (arith, f.current, f.idle, at (s.current h), off)

-- A thread can be found whenever the idle thread is queued.
abbrev pub AlwaysFinds : ℕ → Bool → Scheduler → Type 0
AlwaysFinds h need s =
    is_ready (s.threads (s.idle h)).state ≡ true
    → (q : ℕ) × (is_ready (s.threads q).state ≡ true)
      × ((s.threads q).hart ≡ h)
      × (eligible need (s.threads q) ≡ true)

pub reschedule-IsManned :
    (h : ℕ) (need : Bool) (s : Scheduler)
    → IsManned s (all_but h)
    → h < max_harts
    → is_running (s.threads (s.current h)).state ≡ false
    → AlwaysFinds h need s
    → IsManned (reschedule h need s).1 all_on
unfolding reschedule pick_next
reschedule-IsManned h need s v low off finds =
    go (pick_from h need 0 prio_levels s) (pick_from-IsSearch h need 0 prio_levels s)
      (pick_from-Picked s (eff_prio s) h need 0 prio_levels v.queued.placed)
  where
    go :
        (r : Option ℕ × Scheduler)
        → IsSearch s r
        → Picked s (eff_prio s) h need 0 prio_levels r
        → IsManned
            (let c : ℕ × Scheduler = elim r.0 [
              | none ↦ (fallback h r.1, r.1)
              | some id ↦ (id, r.1)
            ] in
              record c.1 { current = update c.1.current h c.0 })
            all_on
    go (none, s') f p =
        idle-IsManned s s' h v low f p.placed
          (elim (Bool-cases (is_ready (s.threads (s.idle h)).state)) [
            | inl r ↦
                let (q, a, b, c) = finds r in
                ground (arith, p.nothing refl q a b c, eff_prio_le s q, v.queued.sane.prio q)
            | inr r ↦ r
          ])
          off
    go (some id, s') f p =
        let best = p.best id refl in found-IsManned s s' h id v f p.placed best.0 best.1

-- Cooperatively, every queued thread can be chosen.
pub finds_cooperatively :
    (h : ℕ) (s : Scheduler) → IsManned s (all_but h) → h < max_harts → AlwaysFinds h true s
finds_cooperatively h s v low r =
    (s.idle h, r, (v.idle h low).0, ground (arith, v.fit (s.idle h), r))
