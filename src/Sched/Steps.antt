-- ===== src/Sched/Steps.antt =====
-- The scheduler as a machine (kernel/src/sched.rs): the steps its callers take, in any order, and what
-- holds after any number of them.
use ignium.Base.{
  ℕ, ◌≤◌, ◌<◌, ◌≡◌, ◌≢◌, refl, Bool, true, false, ◌||◌, inl, inr, arith, Option, none, some, List,
  [], ◌∷◌, ◌==◌, ltb, if◌then◌else◌, subst, sym, ◌∙◌, ap, Bool-cases, length,
}
use ignium.Ipc.{Msg}
use ignium.Sched.{
  Scheduler, Thread, is_ready, is_running, max_harts, max_threads, gather_harts, belongs,
}
use ignium.Sched.Inheritance.{OnlyFor, register_donation-Requeued}
use ignium.Sched.Bounds.{queues_fit}
use ignium.Sched.Donations.{max_donations}
use ignium.Sched.Kept.{register_donation-Kept}
use ignium.Sched.Running.{IsManned, all_on, IsQueued-Agree, Requeued-IsManned}
use ignium.Sched.Manned.{yield_-IsManned, exit-IsManned}
use ignium.Sched.Blocking.{block_current-IsManned, block_user_from_trap-IsManned}
use ignium.Sched.Waking.{wake-IsManned, ipc_wake_with_msg-IsManned, ipc_wake_with_err-IsManned}
use ignium.Sched.Ticking.{on_tick-IsManned, block_resumed-IsManned}
use ignium.Sched.Idle.{secondary_idle-IsManned, thread_entry-IsManned}
use ignium.Sched.Making.{kernel_thread-IsManned, user_thread-IsManned, init-IsManned}
use ignium.Sched.Migrating.{set_affinity-IsManned}
use ignium.Sched.Switch.{
  set_affinity, block_resumed, secondary_idle, yield_, exit, exit_from_trap, block_current,
  block_user_from_trap, thread_entry,
}
use ignium.Sched.Wakes.{wake, ipc_wake_with_msg, ipc_wake_with_err, donate_on_block}
use ignium.Sched.Preempt.{on_tick}
use ignium.Sched.Spawns.{
  Kernel, UserStart, init, claim_slot, place_thread, kernel_thread, user_thread, spawn, spawn_user,
}

-- The place that the next thread gets is not in use.
abbrev pub IsVacant : Scheduler → Type 0
IsVacant s =
    (id : ℕ) (s' : Scheduler)
    → claim_slot s ≡ some (id, s')
    → (id ≤ s.thread_count)
      × (id < max_threads)
      × ((is_ready (s.threads id).state || is_running (s.threads id).state) ≡ false)

pub data Step (s : Scheduler) : Scheduler → Type 0 where
  yields : (h : ℕ) → h < max_harts → Step s (yield_ h s).1
  blocks :
      (h : ℕ) → h < max_harts → (s.current h == s.idle h) ≡ false → Step s (block_current h s).1
  resumes : (h : ℕ) → h < max_harts → Step s (block_resumed h s)
  enters : (h : ℕ) → h < max_harts → Step s (thread_entry h s).1
  idles : (h : ℕ) → h < max_harts → s.current h ≡ s.idle h → Step s (secondary_idle h s).1
  blocks_user :
      (h : ℕ) (frame : ℕ → ℕ)
      → h < max_harts
      → (s.current h == s.idle h) ≡ false
      → Step s (block_user_from_trap h frame s).1
  exits : (h : ℕ) → h < max_harts → (s.current h == s.idle h) ≡ false → Step s (exit h s).1
  exits_from_trap :
      (h : ℕ) → h < max_harts → (s.current h == s.idle h) ≡ false → Step s (exit_from_trap h s).1
  ticks : (gp h : ℕ) (frame : ℕ → ℕ) → h < max_harts → Step s (on_tick gp h frame s).1
  wakes : (my_hart id : ℕ) → Step s (wake my_hart id s).1
  wakes_with_msg :
      (my_hart tid : ℕ) (msg : Option Msg)
      → tid < s.thread_count
      → Step s (ipc_wake_with_msg my_hart tid msg s).1
  wakes_with_err :
      (my_hart tid code : ℕ)
      → tid < s.thread_count
      → Step s (ipc_wake_with_err my_hart tid code s).1
  donates :
      (donor proc : ℕ) → OnlyFor s.donations donor proc → Step s (donate_on_block donor proc s)
  migrates :
      (id hart : ℕ) (s' : Scheduler)
      → ((k : ℕ) → k < max_harts → (s.idle k == id) ≡ false)
      → is_ready (s.threads id).state ≡ true
      → set_affinity id hart s ≡ some s'
      → Step s s'
  spawns :
      (k : Kernel) (entry prio sp id : ℕ) (s' : Scheduler)
      → k.hartid < max_harts
      → IsVacant s
      → spawn k entry prio sp s ≡ some (id, s')
      → Step s s'
  spawns_user :
      (k : Kernel) (stub : ℕ) (u : UserStart) (id : ℕ) (s' : Scheduler)
      → k.hartid < max_harts
      → IsVacant s
      → spawn_user k stub u s ≡ some (id, s')
      → Step s s'

pub data Steps (s : Scheduler) : Scheduler → Type 0 where
  here : Steps s s
  next : {t u : Scheduler} → Steps s t → Step t u → Steps s u

-- A place claimed changes the list of free places only.
record Claimed (s s1 : Scheduler) : Type 0 where
  manned : IsManned s1 all_on
  threads : s1.threads ≡ s.threads
  thread_count : s1.thread_count ≡ s.thread_count

pair_of : {a b : ℕ × Scheduler} → some a ≡ some b → a ≡ b
pair_of h = cc h

none≢some : {a : ℕ × Scheduler} → none ≢ some a
none≢some h = cc h

free_slots-IsManned :
    (l : List ℕ) (s : Scheduler) → IsManned s all_on → IsManned (record s { free_slots = l }) all_on
free_slots-IsManned l s v = record {
  queued =
      IsQueued-Agree s (record s { free_slots = l })
        (record {
          is = λ q. refl;
          prio = λ q. refl;
          proc = λ q. refl;
          hart = λ q. refl;
          queues = λ k i. refl;
          donations = refl;
        })
        v.queued;
  current = v.current;
  idle = v.idle;
  only = v.only;
  fit = v.fit;
  known = v.known;
  table = v.table;
}

claim_slot-Claimed :
    (s s1 : Scheduler) (id : ℕ) → claim_slot s ≡ some (id, s1) → IsManned s all_on → Claimed s s1
unfolding claim_slot
claim_slot-Claimed s s1 id e v = go s.free_slots e
  where
    go :
        (l : List ℕ)
        → ◌≡◌ {A = Option (ℕ × Scheduler)}
            (elim l [
              | x ∷ rest ↦ some (x, record s { free_slots = rest })
              | [] ↦ if ltb s.thread_count max_threads then some (s.thread_count, s) else none
            ])
            (some (id, s1))
        → Claimed s s1
    go (x ∷ rest) h =
        subst (Claimed s) (ap (λ p. p.1) (pair_of h))
          (record { manned = free_slots-IsManned rest s v; threads = refl; thread_count = refl })
    go [] h = room (ltb s.thread_count max_threads) h
      where
        room :
            (b : Bool)
            → ◌≡◌ {A = Option (ℕ × Scheduler)}
                (if b then some (s.thread_count, s) else none)
                (some (id, s1))
            → Claimed s s1
        room true h =
            subst (Claimed s) (ap (λ p. p.1) (pair_of h))
              (record { manned = v; threads = refl; thread_count = refl })
        room false h = elim (none≢some h) [ ]

spawns-IsManned :
    (t : Thread) (s s' : Scheduler) (id : ℕ)
    → ((s1 : Scheduler) (i : ℕ)
        → claim_slot s ≡ some (i, s1)
        → IsManned (place_thread i t s1) all_on)
    → ◌≡◌ {A = Option (ℕ × Scheduler)}
        (elim (claim_slot s) [ none ↦ none | some r ↦ some (r.0, place_thread r.0 t r.1) ])
        (some (id, s'))
    → IsManned s' all_on
spawns-IsManned t s s' id f e = go (claim_slot s) refl e
  where
    go :
        (o : Option (ℕ × Scheduler))
        → claim_slot s ≡ o
        → ◌≡◌ {A = Option (ℕ × Scheduler)}
            (elim o [ none ↦ none | some r ↦ some (r.0, place_thread r.0 t r.1) ])
            (some (id, s'))
        → IsManned s' all_on
    go none c e = elim (none≢some e) [ ]
    go (some (i, s1)) c e = subst (λ u. IsManned u all_on) (ap (λ p. p.1) (pair_of e)) (f s1 i c)

-- One step
pub Step-IsManned : {s s' : Scheduler} → Step s s' → IsManned s all_on → IsManned s' all_on
unfolding exit_from_trap exit donate_on_block spawn spawn_user
Step-IsManned {s} (yields h low) v = yield_-IsManned h s v low
Step-IsManned {s} (blocks h low busy) v = block_current-IsManned h s v low busy
Step-IsManned {s} (blocks_user h frame low busy) v =
    block_user_from_trap-IsManned h frame s v low busy
Step-IsManned {s} (resumes h low) v = block_resumed-IsManned h s v low
Step-IsManned {s} (enters h low) v = thread_entry-IsManned h s v low
Step-IsManned {s} (idles h low e) v = secondary_idle-IsManned h s v low e
Step-IsManned {s} (exits h low busy) v = exit-IsManned h s v low busy
Step-IsManned {s} (exits_from_trap h low busy) v = exit-IsManned h s v low busy
Step-IsManned {s} (ticks gp h frame low) v = on_tick-IsManned gp h frame s v low
Step-IsManned {s} (wakes my_hart id) v = wake-IsManned my_hart id s v
Step-IsManned {s} (wakes_with_msg my_hart tid msg small) v =
    ipc_wake_with_msg-IsManned my_hart tid msg s v small
Step-IsManned {s} (wakes_with_err my_hart tid code small) v =
    ipc_wake_with_err-IsManned my_hart tid code s v small
Step-IsManned {s} (donates donor proc only) v =
    Requeued-IsManned s (donate_on_block donor proc s) all_on
      (register_donation-Requeued donor proc s v.queued only) (register_donation-Kept donor proc s)
      v
Step-IsManned {s} (migrates id hart s' plain r e) v = set_affinity-IsManned id hart s s' v plain r e
Step-IsManned {s} (spawns k entry prio sp id s' low vacant e) v =
    spawns-IsManned (kernel_thread k entry prio sp) s s' id
      (λ s1 i c.
        let m = claim_slot-Claimed s s1 i c v in
        let (near, small, unused) = vacant i s1 c in
        kernel_thread-IsManned k entry prio sp i s1 m.manned low
          (ground (arith, near, m.thread_count)) small
          (ground (arith, unused, ap (λ f. f i) m.threads)))
      e
Step-IsManned {s} (spawns_user k stub u id s' low vacant e) v =
    spawns-IsManned (user_thread k stub u) s s' id
      (λ s1 i c.
        let m = claim_slot-Claimed s s1 i c v in
        let (near, small, unused) = vacant i s1 c in
        user_thread-IsManned k stub u i s1 m.manned low (ground (arith, near, m.thread_count)) small
          (ground (arith, unused, ap (λ f. f i) m.threads)))
      e

Steps-IsManned : {s s' : Scheduler} → Steps s s' → IsManned s all_on → IsManned s' all_on
Steps-IsManned here v = v
Steps-IsManned (next r e) v = Step-IsManned e (Steps-IsManned r v)

-- After init and any number of these steps, every ready thread stands exactly once in the
-- queues, in the one of its core and its effective priority, no other thread stands in one,
-- every ready or blocked thread has a state to resume, and each idle thread is ready or
-- running.
pub Steps-init :
    (k : Kernel) (idle_entry : ℕ) (sps : ℕ → ℕ) (s : Scheduler)
    → Steps (init k idle_entry sps) s
    → IsManned s all_on
Steps-init k idle_entry sps s r = Steps-IsManned r (init-IsManned k idle_entry sps)

-- After init and any number of the scheduler's steps (yield, block and its return, the entry of
-- a kernel thread, exit, timer tick, a round of the idle loop, moves of ready threads to other
-- cores, wakes, donations, and spawns at places that are not in use; a donor donates to one
-- process at a time, and no idle thread blocks, exits or is moved), the current thread of each
-- core is running, belongs to that core, and is the current thread of no other core.
pub Steps-current :
    (k : Kernel) (idle_entry : ℕ) (sps : ℕ → ℕ) (s : Scheduler) (h : ℕ)
    → Steps (init k idle_entry sps) s
    → h < max_harts
    → (is_running (s.threads (s.current h)).state ≡ true)
      × ((s.threads (s.current h)).hart ≡ h)
      × ((j : ℕ) → j < max_harts → s.current j ≡ s.current h → j ≡ h)
Steps-current k idle_entry sps s h r low =
    let v = Steps-init k idle_entry sps s r in
    let (runs, home) = v.current h low refl in
    (
      runs,
      home,
      λ j small e. sym (v.current j small refl).1 ∙ (ap (λ q. (s.threads q).hart) e ∙ home),
    )

-- After init and any number of the scheduler's steps, no queue and no collection of a process's
-- ready threads has more than MAX_THREADS threads, and the donation table no more than its
-- size: the room reserved at the start is enough.
pub Steps-fit :
    (k : Kernel) (idle_entry : ℕ) (sps : ℕ → ℕ) (s : Scheduler) (h l proc : ℕ)
    → Steps (init k idle_entry sps) s
    → (length (s.ready_queues h l) ≤ max_threads)
      × (length (gather_harts s (belongs s proc) 0 max_harts) ≤ max_threads)
      × (length s.donations ≤ max_donations)
Steps-fit k idle_entry sps s h l proc r =
    queues_fit s h l proc (Steps-init k idle_entry sps s r).queued

-- With no place given back, the next one is past the table's end.
pub IsVacant-new : (s : Scheduler) → IsManned s all_on → s.free_slots ≡ [] → IsVacant s
unfolding claim_slot
IsVacant-new s v e id s' c = go s.free_slots e c
  where
    picked :
        ltb s.thread_count max_threads ≡ true
        → ◌≡◌ {A = Option (ℕ × Scheduler)}
            (if ltb s.thread_count max_threads then some (s.thread_count, s) else none)
            (some (s.thread_count, s))
    picked room = rw room refl

    missing :
        ltb s.thread_count max_threads ≡ false
        → ◌≡◌ {A = Option (ℕ × Scheduler)}
            (if ltb s.thread_count max_threads then some (s.thread_count, s) else none)
            none
    missing full = rw full refl

    go :
        (l : List ℕ)
        → l ≡ []
        → ◌≡◌ {A = Option (ℕ × Scheduler)}
            (elim l [
              | x ∷ rest ↦ some (x, record s { free_slots = rest })
              | [] ↦ if ltb s.thread_count max_threads then some (s.thread_count, s) else none
            ])
            (some (id, s'))
        → (id ≤ s.thread_count)
          × (id < max_threads)
          × ((is_ready (s.threads id).state || is_running (s.threads id).state) ≡ false)
    go (x ∷ l) e c = ground (arith, e)
    go [] e c = elim (Bool-cases (ltb s.thread_count max_threads)) [
      | inl room ↦
          let same : s.thread_count ≡ id = ap (λ p. p.0) (pair_of (sym (picked room) ∙ c)) in
          ground (arith, same, room, v.known id)
      | inr full ↦ elim (none≢some (sym (missing full) ∙ c)) [ ]
    ]
