-- ===== src/Sched/Kept.antt =====
-- What rearranging the queues of kernel/src/sched.rs leaves alone: everything of the threads but the
-- ready state, the cores' threads, and the free places.
use ignium.Base.{
  ℕ, ◌≡◌, refl, Bool, Option, none, some, List, [], ◌∷◌, ◌==◌, if◌then◌else◌, not, take, contains,
  ◌∙◌, arith, Bool-cases, inl, inr,
}
use ignium.Sched.{
  Scheduler, Donation, enqueue, put_queue, put_thread, enqueue_all, retain_queues,
  requeue_proc_threads, is_proc, belongs, gather_harts, max_threads, max_harts, eff_prio,
}
use ignium.Sched.Donations.{
  requeue_all, revoke_donations, register_donation, requeue_except, requeue_donors,
  revoke_donations_of, revoke_donations_for_proc, drop_donations, affected, peer_of, donor_of,
  record_donation,
}

pub record Kept (s s' : Scheduler) : Type 0 where
  pub frame : (id : ℕ) → (s'.threads id).frame ≡ (s.threads id).frame
  pub frame_valid : (id : ℕ) → (s'.threads id).frame_valid ≡ (s.threads id).frame_valid
  pub ctx_valid : (id : ℕ) → (s'.threads id).ctx_valid ≡ (s.threads id).ctx_valid
  pub ipc_msg : (id : ℕ) → (s'.threads id).ipc_msg ≡ (s.threads id).ipc_msg
  pub ipc_wake : (id : ℕ) → (s'.threads id).ipc_wake ≡ (s.threads id).ipc_wake
  pub current : s'.current ≡ s.current
  pub idle : s'.idle ≡ s.idle
  pub free_slots : s'.free_slots ≡ s.free_slots
  pub thread_count : s'.thread_count ≡ s.thread_count

abbrev pub same : (s : Scheduler) → Kept s s
same s = record {
  frame = λ id. refl;
  frame_valid = λ id. refl;
  ctx_valid = λ id. refl;
  ipc_msg = λ id. refl;
  ipc_wake = λ id. refl;
  current = refl;
  idle = refl;
  free_slots = refl;
  thread_count = refl;
}

pub Kept-trans : {s t u : Scheduler} → Kept s t → Kept t u → Kept s u
Kept-trans a b = record {
  frame = λ id. b.frame id ∙ a.frame id;
  frame_valid = λ id. b.frame_valid id ∙ a.frame_valid id;
  ctx_valid = λ id. b.ctx_valid id ∙ a.ctx_valid id;
  ipc_msg = λ id. b.ipc_msg id ∙ a.ipc_msg id;
  ipc_wake = λ id. b.ipc_wake id ∙ a.ipc_wake id;
  current = b.current ∙ a.current;
  idle = b.idle ∙ a.idle;
  free_slots = b.free_slots ∙ a.free_slots;
  thread_count = b.thread_count ∙ a.thread_count;
}

pub enqueue-Kept : (id : ℕ) (s : Scheduler) → Kept s (enqueue id s)
unfolding enqueue put_queue put_thread
enqueue-Kept id s = record {
  frame = λ q. ground arith;
  frame_valid = λ q. ground arith;
  ctx_valid = λ q. ground arith;
  ipc_msg = λ q. ground arith;
  ipc_wake = λ q. ground arith;
  current = refl;
  idle = refl;
  free_slots = refl;
  thread_count = refl;
}

enqueue_all-Kept : (ids : List ℕ) (s : Scheduler) → Kept s (enqueue_all ids s)
unfolding enqueue_all
enqueue_all-Kept [] s = same s
enqueue_all-Kept (id ∷ ids) s = Kept-trans (enqueue-Kept id s) (enqueue_all-Kept ids (enqueue id s))

retain-Kept : (p : ℕ → Bool) (s : Scheduler) → Kept s (retain_queues p s)
unfolding retain_queues
retain-Kept p s = record {
  frame = λ id. refl;
  frame_valid = λ id. refl;
  ctx_valid = λ id. refl;
  ipc_msg = λ id. refl;
  ipc_wake = λ id. refl;
  current = refl;
  idle = refl;
  free_slots = refl;
  thread_count = refl;
}

pub requeue-Kept : (proc : ℕ) (s : Scheduler) → Kept s (requeue_proc_threads proc s)
unfolding requeue_proc_threads
requeue-Kept proc s =
    let p : ℕ → Bool = λ id. not (belongs s proc id) in
    Kept-trans (retain-Kept p s) (
      enqueue_all-Kept (take max_threads (gather_harts s (belongs s proc) 0 max_harts))
        (retain_queues p s))

requeue_all-Kept : (procs : List ℕ) (s : Scheduler) → Kept s (requeue_all procs s)
unfolding requeue_all
requeue_all-Kept [] s = same s
requeue_all-Kept (proc ∷ procs) s =
    Kept-trans (requeue-Kept proc s) (requeue_all-Kept procs (requeue_proc_threads proc s))

Kept-donations : (ds : List Donation) (s : Scheduler) → Kept s (record s { donations = ds })
Kept-donations ds s = record {
  frame = λ id. refl;
  frame_valid = λ id. refl;
  ctx_valid = λ id. refl;
  ipc_msg = λ id. refl;
  ipc_wake = λ id. refl;
  current = refl;
  idle = refl;
  free_slots = refl;
  thread_count = refl;
}

pub revoke_donations-Kept : (tid : ℕ) (s : Scheduler) → Kept s (revoke_donations tid s)
unfolding revoke_donations
revoke_donations-Kept tid s =
    let p : Donation → Bool = λ d. d.donor_tid == tid in
    let ds : List Donation = drop_donations p s.donations in
    Kept-trans (Kept-donations ds s)
      (requeue_all-Kept (affected p peer_of s.donations []) (record s { donations = ds }))

pub register_donation-Kept : (tid proc : ℕ) (s : Scheduler) → Kept s (register_donation tid proc s)
unfolding register_donation
register_donation-Kept tid proc s =
    let ds : List Donation =
      record_donation s.donations
        (record { donor_tid = tid; peer_proc = proc; prio = eff_prio s tid }) in
    Kept-trans (Kept-donations ds s) (requeue-Kept proc (record s { donations = ds }))

requeue_except-Kept :
    (skip : Option ℕ) (procs : List ℕ) (s : Scheduler) → Kept s (requeue_except skip procs s)
unfolding requeue_except
requeue_except-Kept skip [] s = same s
requeue_except-Kept skip (proc ∷ procs) s = elim (Bool-cases (is_proc skip proc)) [
  | inl e ↦ rw (requeue_except, e) (requeue_except-Kept skip procs s)
  | inr e ↦
      rw (requeue_except, e)
        (Kept-trans (requeue-Kept proc s)
          (requeue_except-Kept skip procs (requeue_proc_threads proc s)))
]

requeue_donor-Kept :
    (proc : ℕ) (o : Option ℕ) (s : Scheduler)
    → Kept s (elim o [ none ↦ s | some p ↦ if p == proc then s else requeue_proc_threads p s ])
requeue_donor-Kept proc none s = same s
requeue_donor-Kept proc (some p) s = elim (Bool-cases (p == proc)) [
  | inl e ↦ rw e (same s)
  | inr e ↦ rw e (requeue-Kept p s)
]

requeue_donors-Kept :
    (proc : ℕ) (tids : List ℕ) (s : Scheduler) → Kept s (requeue_donors proc tids s)
unfolding requeue_donors
requeue_donors-Kept proc [] s = same s
requeue_donors-Kept proc (tid ∷ tids) s =
    Kept-trans (requeue_donor-Kept proc (s.threads tid).proc s) (requeue_donors-Kept proc tids _)

pub revoke_donations_of-Kept :
    (tids : List ℕ) (skip : Option ℕ) (s : Scheduler) → Kept s (revoke_donations_of tids skip s)
unfolding revoke_donations_of
revoke_donations_of-Kept tids skip s =
    let p : Donation → Bool = λ d. contains tids d.donor_tid in
    let ds : List Donation = drop_donations p s.donations in
    Kept-trans (Kept-donations ds s)
      (requeue_except-Kept skip (affected p peer_of s.donations []) (record s { donations = ds }))

pub revoke_donations_for_proc-Kept :
    (proc : ℕ) (s : Scheduler) → Kept s (revoke_donations_for_proc proc s)
unfolding revoke_donations_for_proc
revoke_donations_for_proc-Kept proc s =
    let p : Donation → Bool = λ d. d.peer_proc == proc in
    let ds : List Donation = drop_donations p s.donations in
    Kept-trans (Kept-donations ds s)
      (requeue_donors-Kept proc (affected p donor_of s.donations []) (record s { donations = ds }))
