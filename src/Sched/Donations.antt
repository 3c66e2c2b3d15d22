-- ===== src/Sched/Donations.antt =====
-- Priority inheritance (kernel/src/sched.rs: the donations of a thread that waits for another process).
use ignium.Base.{
  ℕ, Bool, ◌&&◌, Option, none, some, List, [], ◌∷◌, ◌++◌, ◌==◌, ltb, if◌then◌else◌, length,
  contains, not,
}
use ignium.Sched.{Scheduler, Donation, eff_prio, requeue_proc_threads, max_threads, is_proc}

abbrev pub max_donations : ℕ
max_donations = max_threads

-- The first donation of the donor, changed; `none` if it has none.
unfoldable pub replace_donation : List Donation → Donation → Option (List Donation)
replace_donation [] new = none
replace_donation (d ∷ ds) new =
    let rest = replace_donation ds new in
    if d.donor_tid == new.donor_tid
    then some (new ∷ ds)
    else elim rest [ none ↦ none | some ds' ↦ some (d ∷ ds') ]

-- What is left in the table: the changed donations, or one more if there is room.
abbrev pub recorded_of : List Donation → Donation → Option (List Donation) → List Donation
recorded_of ds new (some ds') = ds'
recorded_of ds new none = if ltb (length ds) max_donations then ds ++ new ∷ [] else ds

unfoldable pub record_donation : List Donation → Donation → List Donation
unfolding replace_donation
record_donation ds new = recorded_of ds new (replace_donation ds new)

unfoldable pub register_donation : ℕ → ℕ → Scheduler → Scheduler
unfolding record_donation
register_donation donor_tid peer_proc s =
    let new : Donation = record {
      donor_tid = donor_tid;
      peer_proc = peer_proc;
      prio = eff_prio s donor_tid;
    } in
    requeue_proc_threads peer_proc (record s { donations = record_donation s.donations new })

-- The donations that fail a test stay, and the others' numbers are listed, each once.
unfoldable pub drop_donations : (Donation → Bool) → List Donation → List Donation
drop_donations p [] = []
drop_donations p (d ∷ ds) = let rest = drop_donations p ds in if p d then rest else d ∷ rest

unfoldable pub affected : (Donation → Bool) → (Donation → ℕ) → List Donation → List ℕ → List ℕ
affected p f [] found = found
affected p f (d ∷ ds) found = affected p f ds (
    if p d && (ltb (length found) max_threads && not (contains found (f d)))
    then found ++ f d ∷ []
    else found)

unfoldable pub requeue_all : List ℕ → Scheduler → Scheduler
requeue_all [] s = s
requeue_all (proc ∷ procs) s = requeue_all procs (requeue_proc_threads proc s)

abbrev pub peer_of : Donation → ℕ
peer_of d = d.peer_proc

unfoldable pub revoke_donations : ℕ → Scheduler → Scheduler
unfolding drop_donations affected requeue_all
revoke_donations donor_tid s =
    let p : Donation → Bool = λ d. d.donor_tid == donor_tid in
    requeue_all (affected p peer_of s.donations [])
      (record s { donations = drop_donations p s.donations })

-- `if Some(proc) != skip_proc`
unfoldable pub requeue_except : Option ℕ → List ℕ → Scheduler → Scheduler
requeue_except skip [] s = s
requeue_except skip (proc ∷ procs) s =
    requeue_except skip procs (if is_proc skip proc then s else requeue_proc_threads proc s)

unfoldable pub revoke_donations_of : List ℕ → Option ℕ → Scheduler → Scheduler
unfolding drop_donations affected requeue_except
revoke_donations_of tids skip s =
    let p : Donation → Bool = λ d. contains tids d.donor_tid in
    requeue_except skip (affected p peer_of s.donations [])
      (record s { donations = drop_donations p s.donations })

abbrev pub donor_of : Donation → ℕ
donor_of d = d.donor_tid

-- The processes of the donors, but for the process itself.
unfoldable pub requeue_donors : ℕ → List ℕ → Scheduler → Scheduler
requeue_donors proc [] s = s
requeue_donors proc (tid ∷ tids) s = requeue_donors proc tids (elim (s.threads tid).proc [
  | none ↦ s
  | some p ↦ if p == proc then s else requeue_proc_threads p s
])

unfoldable pub revoke_donations_for_proc : ℕ → Scheduler → Scheduler
unfolding drop_donations affected requeue_donors
revoke_donations_for_proc proc s =
    let p : Donation → Bool = λ d. d.peer_proc == proc in
    requeue_donors proc (affected p donor_of s.donations [])
      (record s { donations = drop_donations p s.donations })
