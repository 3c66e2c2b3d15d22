-- ===== src/Sched/Inheritance.antt =====
-- Priority inheritance (kernel/src/sched.rs): donations and the queues.
use ignium.Base.{
  ℕ, suc, ◌+◌, ◌≤◌, ◌<◌, ◌≡◌, refl, Bool, true, false, ◌&&◌, ◌||◌, Option, none, some, List, [],
  ◌∷◌, ◌++◌, inl, inr, arith, ◌==◌, ltb, if◌then◌else◌, length, ap, contains, sym, ◌∙◌, subst,
  Bool-cases, length-append, contains-push,
}
use ignium.Sched.{
  eff_prio, lowest, donated, Donation, Scheduler, is_ready, max_threads, max_harts, prio_levels,
  is_proc, belongs, requeue_proc_threads,
}
use ignium.Sched.Queues.{Placed, InBounds, SameThreads, requeue-Placed}
use ignium.Sched.Donations.{
  register_donation, revoke_donations, replace_donation, drop_donations, record_donation,
  recorded_of, affected, requeue_all, max_donations, peer_of,
}

-- Every thread has a core and a level of the machine, and a ready one is in the table.
pub record IsSane (s : Scheduler) : Type 0 where
  pub thread : (id : ℕ) → is_ready (s.threads id).state ≡ true → id < max_threads
  pub hart : (id : ℕ) → (s.threads id).hart < max_harts
  pub prio : (id : ℕ) → (s.threads id).prio < prio_levels

pub lowest_le : (ds : List Donation) (proc p : ℕ) → lowest ds proc p ≤ p
unfolding lowest
lowest_le [] proc p = omega arith
lowest_le (d ∷ ds) proc p =
    ground (arith, lowest_le ds proc (if d.peer_proc == proc && ltb d.prio p then d.prio else p))

pub eff_prio_le : (s : Scheduler) (id : ℕ) → eff_prio s id ≤ (s.threads id).prio
unfolding eff_prio
eff_prio_le s id = go (s.threads id).proc refl
  where
    go :
        (o : Option ℕ)
        → (s.threads id).proc ≡ o
        → donated s.donations o (s.threads id).prio ≤ (s.threads id).prio
    go none e = omega arith
    go (some proc) e = lowest_le s.donations proc (s.threads id).prio

pub IsSane-InBounds : (s : Scheduler) → IsSane s → InBounds s (eff_prio s)
IsSane-InBounds s v = record {
  thread = v.thread;
  hart = λ id _. v.hart id;
  level = λ id _. omega (arith, eff_prio_le s id, v.prio id);
}

pub IsSane-SameThreads : (s s' : Scheduler) → SameThreads s s' → IsSane s → IsSane s'
IsSane-SameThreads s s' e v = record {
  thread = λ id h. v.thread id (ap is_ready (sym (e.state id)) ∙ h);
  hart = λ id. rw (e.hart id) (v.hart id);
  prio = λ id. rw (e.prio id) (v.prio id);
}

pub eff_prio-SameThreads :
    (s s' : Scheduler) (id : ℕ) → SameThreads s s' → eff_prio s' id ≡ eff_prio s id
unfolding eff_prio
eff_prio-SameThreads s s' id e = rw (e.proc id, e.prio id, e.donations) refl

pub Placed-ext :
    (s : Scheduler) (lev lev' : ℕ → ℕ)
    → ((id : ℕ) → lev' id ≡ lev id)
    → Placed s lev
    → Placed s lev'
Placed-ext s lev lev' e v h l id = ground (arith, e id, v h l id)

SameThreads-refl : (s : Scheduler) → SameThreads s s
SameThreads-refl s = record {
  state = λ q. refl;
  prio = λ q. refl;
  proc = λ q. refl;
  hart = λ q. refl;
  donations = refl;
}

SameThreads-trans : {s t u : Scheduler} → SameThreads s t → SameThreads t u → SameThreads s u
SameThreads-trans a b = record {
  state = λ q. b.state q ∙ a.state q;
  prio = λ q. b.prio q ∙ a.prio q;
  proc = λ q. b.proc q ∙ a.proc q;
  hart = λ q. b.hart q ∙ a.hart q;
  donations = b.donations ∙ a.donations;
}

-- A thread of one of the processes.
abbrev in_procs : List ℕ → Option ℕ → Bool
in_procs procs none = false
in_procs procs (some p) = contains procs p

in_procs-cons :
    (proc : ℕ) (procs : List ℕ) (o : Option ℕ)
    → in_procs (proc ∷ procs) o ≡ (is_proc o proc || in_procs procs o)
in_procs-cons proc procs none = refl
in_procs-cons proc procs (some p) = ground arith

in_no_procs : (o : Option ℕ) → in_procs [] o ≡ false
in_no_procs none = refl
in_no_procs (some p) = refl

-- Rearranging the threads of several processes, one after the other.
requeue_all-Placed :
    (procs : List ℕ) (s : Scheduler) (lev lev' : ℕ → ℕ)
    → Placed s lev
    → ((id : ℕ) → lev id < prio_levels)
    → IsSane s
    → ((id : ℕ) → in_procs procs (s.threads id).proc ≡ true → lev' id ≡ eff_prio s id)
    → ((id : ℕ) → in_procs procs (s.threads id).proc ≡ false → lev' id ≡ lev id)
    → Placed (requeue_all procs s) lev' × SameThreads s (requeue_all procs s)
unfolding requeue_all
requeue_all-Placed [] s lev lev' v small sane own other =
    (Placed-ext s lev lev' (λ id. other id (in_no_procs (s.threads id).proc)) v, SameThreads-refl s)
requeue_all-Placed (proc ∷ procs) s lev lev' v small sane own other =
    let lev1 : ℕ → ℕ = λ id. if belongs s proc id then eff_prio s id else lev id in
    let b : InBounds s lev = record {
      thread = sane.thread;
      hart = λ id _. sane.hart id;
      level = λ id _. small id;
    } in
    let (placed, same) =
      requeue-Placed proc s lev lev1 v b (λ id e. ground (arith, e)) (λ id e. ground (arith, e)) in
    let (final, rest) =
      requeue_all-Placed procs (requeue_proc_threads proc s) lev1 lev' placed
        (λ id. ground (arith, small id, eff_prio_le s id, sane.prio id))
        (IsSane-SameThreads _ _ same sane)
        (λ id e.
          own id (
            in_procs-cons proc procs (s.threads id).proc
            ∙ later id (ap (in_procs procs) (sym (same.proc id)) ∙ e))
          ∙ sym (eff_prio-SameThreads _ _ id same))
        (λ id e. ground (
          arith,
          ap (in_procs procs) (sym (same.proc id)) ∙ e,
          in_procs-cons proc procs (s.threads id).proc,
          own id,
          other id,
        )) in
    (final, SameThreads-trans same rest)
  where
    later :
        (id : ℕ)
        → in_procs procs (s.threads id).proc ≡ true
        → (is_proc (s.threads id).proc proc || in_procs procs (s.threads id).proc) ≡ true
    later id e = ground (arith, e)

-- A thread table and queues in order: every ready thread stands once, in the queue of its core and of
-- its effective priority, and nothing else stands in a queue.
pub record IsQueued (s : Scheduler) : Type 0 where
  pub sane : IsSane s
  pub placed : Placed s (eff_prio s)
  pub few : length s.donations ≤ max_donations

-- Some donation that passes the test is for the process.
abbrev hits : (Donation → Bool) → List Donation → ℕ → Bool
hits p [] x = false
hits p (d ∷ ds) x = (p d && d.peer_proc == x) || hits p ds x

contains-affected :
    (p : Donation → Bool) (ds : List Donation) (found : List ℕ) (x : ℕ)
    → length found + length ds ≤ max_threads
    → (hits p ds x || contains found x) ≡ true
    → contains (affected p peer_of ds found) x ≡ true
unfolding affected
contains-affected p [] found x h g = g
contains-affected p (d ∷ ds) found x h g =
    contains-affected p ds _ x (ground (arith, h, length-append found (d.peer_proc ∷ [])))
      (ground (arith, g, h, contains-push found d.peer_proc x))

lowest-drop :
    (p : Donation → Bool) (ds : List Donation) (proc q : ℕ)
    → hits p ds proc ≡ false
    → lowest (drop_donations p ds) proc q ≡ lowest ds proc q
unfolding lowest drop_donations
lowest-drop p [] proc q h = refl
lowest-drop p (d ∷ ds) proc q h = elim (Bool-cases (p d)) [
  | inl e ↦ rw (e, drop_donations) (ground (arith, e, h, lowest-drop p ds proc q))
  | inr e ↦ rw (e, drop_donations) (lowest-drop p ds proc _ (ground (arith, e, h)))
]

length-drop_donations :
    (p : Donation → Bool) (ds : List Donation) → length (drop_donations p ds) ≤ length ds
unfolding drop_donations
length-drop_donations p [] = omega arith
length-drop_donations p (d ∷ ds) = ground (arith, length-drop_donations p ds)

-- Queues in order again, with the threads as they were.
pub record Requeued (s s' : Scheduler) : Type 0 where
  pub queued : IsQueued s'
  pub state : (id : ℕ) → (s'.threads id).state ≡ (s.threads id).state
  pub prio : (id : ℕ) → (s'.threads id).prio ≡ (s.threads id).prio
  pub proc : (id : ℕ) → (s'.threads id).proc ≡ (s.threads id).proc
  pub hart : (id : ℕ) → (s'.threads id).hart ≡ (s.threads id).hart

-- Where the queues are in order, revoking the donations of a thread leaves them in order for
-- the effective priorities that result, and changes the state, the priority, the process and
-- the core of no thread.
pub revoke_donations-Requeued :
    (tid : ℕ) (s : Scheduler) → IsQueued s → Requeued s (revoke_donations tid s)
unfolding revoke_donations eff_prio
revoke_donations-Requeued tid s v =
    let (placed, same) =
      requeue_all-Placed procs s1 (eff_prio s) (eff_prio s1) v.placed
        (λ id. omega (arith, eff_prio_le s id, v.sane.prio id))
        (record { thread = v.sane.thread; hart = v.sane.hart; prio = v.sane.prio }) (λ id _. refl)
        (λ id out. unchanged id (s.threads id).proc refl out) in
    record {
      queued = record {
        sane =
            IsSane-SameThreads s1 (requeue_all procs s1) same
              (record { thread = v.sane.thread; hart = v.sane.hart; prio = v.sane.prio });
        placed =
            Placed-ext (requeue_all procs s1) (eff_prio s1) (eff_prio (requeue_all procs s1))
              (λ id. eff_prio-SameThreads s1 (requeue_all procs s1) id same) placed;
        few = rw (same.donations) (omega (arith, length-drop_donations p s.donations, v.few));
      };
      state = same.state;
      prio = same.prio;
      proc = same.proc;
      hart = same.hart;
    }
  where
    p : Donation → Bool
    p d = d.donor_tid == tid

    procs : List ℕ
    procs = affected p peer_of s.donations []

    s1 : Scheduler
    s1 = record s { donations = drop_donations p s.donations }

    unchanged :
        (id : ℕ) (o : Option ℕ)
        → (s.threads id).proc ≡ o
        → in_procs procs (s.threads id).proc ≡ false
        → eff_prio s1 id ≡ eff_prio s id
    unchanged id none e out = rw e refl
    unchanged id (some q) e out = rw e (
        lowest-drop p s.donations q (s.threads id).prio (
          ground (
            arith,
            contains-affected p s.donations [] q (omega (arith, v.few)),
            ap (in_procs procs) (sym e) ∙ out,
          )))

-- Every donation of the donor is for the process.
abbrev pub OnlyFor : List Donation → ℕ → ℕ → Type 0
OnlyFor [] donor proc = Unit
OnlyFor (d ∷ ds) donor proc = (d.donor_tid ≡ donor → d.peer_proc ≡ proc) × OnlyFor ds donor proc

pub list_of : {xs ys : List Donation} → some xs ≡ some ys → xs ≡ ys
list_of h = cc h

lowest-replace :
    (ds ds' : List Donation) (new : Donation) (q p : ℕ)
    → replace_donation ds new ≡ some ds'
    → OnlyFor ds new.donor_tid new.peer_proc
    → (new.peer_proc == q) ≡ false
    → (lowest ds' q p ≡ lowest ds q p) × (length ds' ≡ length ds)
unfolding lowest replace_donation
lowest-replace [] ds' new q p h only other = ground (arith, h)
lowest-replace (d ∷ ds) ds' new q p h only other =
    go (d.donor_tid == new.donor_tid) refl (replace_donation ds new) h
      (λ l p e. lowest-replace ds l new q p e only.1 other)
  where
    go :
        (b : Bool)
        → (d.donor_tid == new.donor_tid) ≡ b
        → (o : Option (List Donation))
        → (if b then some (new ∷ ds) else elim o [ none ↦ none | some l ↦ some (d ∷ l) ]) ≡ some ds'
        → ((l : List Donation) (p : ℕ)
            → o ≡ some l
            → (lowest l q p ≡ lowest ds q p) × (length l ≡ length ds))
        → (lowest ds' q p ≡ lowest (d ∷ ds) q p) × (length ds' ≡ length (d ∷ ds))
    go true e o h rec =
        subst (λ l. (lowest l q p ≡ lowest (d ∷ ds) q p) × (length l ≡ length (d ∷ ds))) (list_of h)
          (ground (arith, e, only.0, other), refl)
    go false e none h rec = ground (arith, h)
    go false e (some l) h rec =
        subst (λ l. (lowest l q p ≡ lowest (d ∷ ds) q p) × (length l ≡ length (d ∷ ds))) (list_of h)
          ((rec l _ refl).0, ap suc (rec l p refl).1)

lowest-push :
    (ds : List Donation) (new : Donation) (q p : ℕ)
    → (new.peer_proc == q) ≡ false
    → lowest (ds ++ new ∷ []) q p ≡ lowest ds q p
unfolding lowest
lowest-push [] new q p h = ground (arith, h)
lowest-push (d ∷ ds) new q p h = lowest-push ds new q _ h

-- A donation recorded changes the priority of no other process, and the table stays within its size.
record_donation-keeps :
    (ds : List Donation) (new : Donation) (q p : ℕ)
    → length ds ≤ max_donations
    → OnlyFor ds new.donor_tid new.peer_proc
    → (new.peer_proc == q) ≡ false
    → (lowest (record_donation ds new) q p ≡ lowest ds q p)
      × (length (record_donation ds new) ≤ max_donations)
unfolding record_donation
record_donation-keeps ds new q p few only other = go (replace_donation ds new) refl
  where
    go :
        (o : Option (List Donation))
        → replace_donation ds new ≡ o
        → (lowest (recorded_of ds new o) q p ≡ lowest ds q p)
          × (length (recorded_of ds new o) ≤ max_donations)
    go (some ds') e =
        let (same, size) = lowest-replace ds ds' new q p e only other in
        (same, omega (arith, size, few))
    go none e = elim (Bool-cases (ltb (length ds) max_donations)) [
      | inl b ↦ rw b (lowest-push ds new q p other, ground (arith, b, length-append ds (new ∷ [])))
      | inr b ↦ rw b (refl, few)
    ]

-- Registering
pub register_donation-Requeued :
    (donor_tid peer_proc : ℕ) (s : Scheduler)
    → IsQueued s
    → OnlyFor s.donations donor_tid peer_proc
    → Requeued s (register_donation donor_tid peer_proc s)
unfolding register_donation eff_prio
register_donation-Requeued donor_tid peer_proc s v only =
    let sane1 : IsSane s1 = record {
      thread = v.sane.thread;
      hart = v.sane.hart;
      prio = v.sane.prio;
    } in
    let (placed, same) =
      requeue-Placed peer_proc s1 (eff_prio s) (eff_prio s1) v.placed
        (record {
          thread = v.sane.thread;
          hart = λ id _. v.sane.hart id;
          level = λ id _. omega (arith, eff_prio_le s id, v.sane.prio id);
        })
        (λ id _. refl) (λ id out. unchanged id (s.threads id).proc refl out) in
    record {
      queued = record {
        sane = IsSane-SameThreads s1 (requeue_proc_threads peer_proc s1) same sane1;
        placed =
            Placed-ext (requeue_proc_threads peer_proc s1) (eff_prio s1)
              (eff_prio (requeue_proc_threads peer_proc s1))
              (λ id. eff_prio-SameThreads s1 (requeue_proc_threads peer_proc s1) id same) placed;
        few =
            rw (same.donations)
              (record_donation-keeps s.donations new (suc peer_proc) 0 v.few only (ground arith)).1;
      };
      state = same.state;
      prio = same.prio;
      proc = same.proc;
      hart = same.hart;
    }
  where
    new : Donation
    new = record { donor_tid = donor_tid; peer_proc = peer_proc; prio = eff_prio s donor_tid }

    s1 : Scheduler
    s1 = record s { donations = record_donation s.donations new }

    unchanged :
        (id : ℕ) (o : Option ℕ)
        → (s.threads id).proc ≡ o
        → belongs s peer_proc id ≡ false
        → eff_prio s1 id ≡ eff_prio s id
    unchanged id none e out = rw e refl
    unchanged id (some q) e out =
        rw e
          (record_donation-keeps s.donations new q (s.threads id).prio v.few only
            (ground (arith, ap (λ o. is_proc o peer_proc) (sym e) ∙ out))).0
