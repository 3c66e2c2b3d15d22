-- ===== src/Sched/Bounds.antt =====
-- Sizes and choices of kernel/src/sched.rs: the room reserved for the queues, the thread chosen, and
-- what a donation does to a priority.
use ignium.Base.{
  ℕ, ◌≤◌, ◌<◌, ◌≡◌, refl, Bool, true, false, ◌&&◌, arith, Option, none, some, List, [], ◌∷◌, ◌++◌,
  ◌==◌, ltb, if◌then◌else◌, length, subst, not, take,
}
use ignium.Base.Counting.{length_le}
use ignium.Sched.{
  Scheduler, Donation, is_ready, max_harts, max_threads, prio_levels, eligible, eff_prio, lowest,
  pick_from, pick_next, fallback, gather_harts, belongs, enqueue_all, enqueue, requeue_proc_threads,
  retain_queues,
}
use ignium.Sched.Queues.{count-gathered}
use ignium.Sched.Donations.{
  register_donation, replace_donation, record_donation, recorded_of, max_donations,
}
use ignium.Sched.Picks.{Picked, pick_from-Picked}
use ignium.Sched.Inheritance.{
  IsQueued, IsSane-InBounds, eff_prio_le, OnlyFor, register_donation-Requeued, lowest_le, list_of,
}

-- The queues in order are no longer than the room reserved for them.
pub queues_fit :
    (s : Scheduler) (h l proc : ℕ)
    → IsQueued s
    → (length (s.ready_queues h l) ≤ max_threads)
      × (length (gather_harts s (belongs s proc) 0 max_harts) ≤ max_threads)
      × (length s.donations ≤ max_donations)
queues_fit s h l proc v =
    let b = IsSane-InBounds s v.sane in
    (
      length_le max_threads (s.ready_queues h l) (λ a. ground (arith, v.placed h l a))
          (λ a out. ground (arith, v.placed h l a, v.sane.thread a, out)),
      length_le max_threads (gather_harts s (belongs s proc) 0 max_harts)
          (λ a. ground (arith, count-gathered s (eff_prio s) (belongs s proc) a v.placed b))
          (λ a out. ground (
            arith,
            count-gathered s (eff_prio s) (belongs s proc) a v.placed b,
            v.sane.thread a,
            out,
          )),
      v.few,
    )

-- Where the queues are in order and the thread table has a ready thread of the core that may be
-- chosen, pick_next returns a ready thread of the core that may be chosen, whose effective
-- priority is no worse than that of the first.
pub pick_next-best :
    (s : Scheduler) (hart : ℕ) (need : Bool) (q : ℕ)
    → IsQueued s
    → is_ready (s.threads q).state ≡ true
    → (s.threads q).hart ≡ hart
    → eligible need (s.threads q) ≡ true
    → let id = (pick_next hart need s).0 in
      (is_ready (s.threads id).state ≡ true)
      × ((s.threads id).hart ≡ hart)
      × (eligible need (s.threads id) ≡ true)
      × (eff_prio s id ≤ eff_prio s q)
unfolding pick_next
pick_next-best s hart need q v r h g =
    go (pick_from hart need 0 prio_levels s)
      (pick_from-Picked s (eff_prio s) hart need 0 prio_levels v.placed)
  where
    go :
        (p : Option ℕ × Scheduler)
        → Picked s (eff_prio s) hart need 0 prio_levels p
        → let c : ℕ × Scheduler = elim p.0 [
          | none ↦ (fallback hart p.1, p.1)
          | some id ↦ (id, p.1)
        ] in
          (is_ready (s.threads c.0).state ≡ true)
          × ((s.threads c.0).hart ≡ hart)
          × (eligible need (s.threads c.0) ≡ true)
          × (eff_prio s c.0 ≤ eff_prio s q)
    go (some id, s') p =
        let (a, b, c, d, best) = p.best id refl in (a, b, c, best q r h g (omega arith))
    go (none, s') p =
        ground (arith, p.nothing refl q r h g (omega arith), eff_prio_le s q, v.sane.prio q)

push_le :
    (ds : List Donation) (new : Donation) (p : ℕ)
    → lowest (ds ++ new ∷ []) new.peer_proc p ≤ new.prio
unfolding lowest
push_le [] new p = ground arith
push_le (d ∷ ds) new p = push_le ds new _

replace_le :
    (ds ds' : List Donation) (new : Donation) (p : ℕ)
    → replace_donation ds new ≡ some ds'
    → lowest ds' new.peer_proc p ≤ new.prio
unfolding lowest replace_donation
replace_le [] ds' new p h = ground (arith, h)
replace_le (d ∷ ds) ds' new p h =
    go (d.donor_tid == new.donor_tid) (replace_donation ds new) h (λ l q e. replace_le ds l new q e)
  where
    go :
        (b : Bool) (o : Option (List Donation))
        → ◌≡◌ {A = Option (List Donation)}
            (if b then some (new ∷ ds) else elim o [ none ↦ none | some l ↦ some (d ∷ l) ])
            (some ds')
        → ((l : List Donation) (q : ℕ) → o ≡ some l → lowest l new.peer_proc q ≤ new.prio)
        → lowest ds' new.peer_proc p ≤ new.prio
    go true o h rec =
        subst (λ l. lowest l new.peer_proc p ≤ new.prio) (list_of h)
          (ground (
            arith,
            lowest_le ds new.peer_proc
                (if new.peer_proc == new.peer_proc && ltb new.prio p then new.prio else p),
          ))
    go false none h rec = ground (arith, h)
    go false (some l) h rec =
        subst (λ l. lowest l new.peer_proc p ≤ new.prio) (list_of h) (rec l _ refl)

record_le :
    (ds : List Donation) (new : Donation) (p : ℕ)
    → length ds < max_donations
    → lowest (record_donation ds new) new.peer_proc p ≤ new.prio
unfolding record_donation
record_le ds new p room = go (replace_donation ds new) refl
  where
    go :
        (o : Option (List Donation))
        → replace_donation ds new ≡ o
        → lowest (recorded_of ds new o) new.peer_proc p ≤ new.prio
    go (some ds') e = replace_le ds ds' new p e
    go none e =
        let fits : ltb (length ds) max_donations ≡ true = ground (arith, room) in
        rw fits (push_le ds new p)

enqueue_all-donations : (ids : List ℕ) (s : Scheduler) → (enqueue_all ids s).donations ≡ s.donations
unfolding enqueue_all enqueue
enqueue_all-donations [] s = refl
enqueue_all-donations (id ∷ ids) s = enqueue_all-donations ids (enqueue id s)

register_donation-donations :
    (donor_tid peer_proc : ℕ) (s : Scheduler)
    → (register_donation donor_tid peer_proc s).donations
      ≡ record_donation s.donations
          (record { donor_tid = donor_tid; peer_proc = peer_proc; prio = eff_prio s donor_tid })
unfolding register_donation requeue_proc_threads retain_queues
register_donation-donations donor_tid peer_proc s =
    enqueue_all-donations
      (take max_threads
        (gather_harts (record s { donations = ds }) (belongs s peer_proc) 0 max_harts))
      (retain_queues (λ id. not (belongs s peer_proc id)) (record s { donations = ds }))
  where
    ds : List Donation
    ds =
        record_donation s.donations
          (record { donor_tid = donor_tid; peer_proc = peer_proc; prio = eff_prio s donor_tid })

-- Where the queues are in order, the donation table has room, and the donor has donated to no
-- other process, after a donation every thread of the process has an effective priority no
-- worse than the donor had.
pub register_donation-eff_prio :
    (donor_tid peer_proc : ℕ) (s : Scheduler) (q : ℕ)
    → IsQueued s
    → OnlyFor s.donations donor_tid peer_proc
    → length s.donations < max_donations
    → (s.threads q).proc ≡ some peer_proc
    → eff_prio (register_donation donor_tid peer_proc s) q ≤ eff_prio s donor_tid
unfolding eff_prio
register_donation-eff_prio donor_tid peer_proc s q v only room member =
    let r = register_donation-Requeued donor_tid peer_proc s v only in
    rw (r.proc q, r.prio q, member, table)
      (record_le s.donations
        (record { donor_tid = donor_tid; peer_proc = peer_proc; prio = eff_prio s donor_tid })
        (s.threads q).prio room)
  where
    table :
        (register_donation donor_tid peer_proc s).donations
        ≡ record_donation s.donations
            (record { donor_tid = donor_tid; peer_proc = peer_proc; prio = eff_prio s donor_tid })
    table = register_donation-donations donor_tid peer_proc s
