-- ===== src/Locks/Exclusion.antt =====
-- Who holds a mutex (kernel/src/sync.rs), under any order of the steps of the cores.
use ignium.Base.{
  ℕ, ◌≡◌, refl, sym, ap, ◌∙◌, Bool, true, false, List, [], ◌∷◌, ◌==◌, if◌then◌else◌, arith, inl,
  inr, Bool-cases,
}
use ignium.Sched.{Scheduler}
use ignium.Locks.{
  Stage, away, swapping, registering, retrying, unlisting, blocking, holding, storing, waking,
  listing, yielding, handing, resting, notifying_one, notifying_all, Lock, go_to, turn, act,
  first_swap, second_swap, wake_waiter, wake_sleeper, wake_sleepers, block,
}

-- A thread has the mutex from its swap to its store.
abbrev pub holds : Stage → Bool
holds holding = true
holds storing = true
holds unlisting = true
holds listing = true
holds yielding = true
holds _ = false

-- The calls of a thread outside of the locks' code: any thread may lock or notify, and the thread with
-- the guard may drop it or wait.
pub data Call : Stage → Stage → Type 0 where
  lock : Call away swapping
  notify_one : Call away notifying_one
  notify_all : Call away notifying_all
  drop_guard : Call holding storing
  wait : Call holding listing

-- A core takes a turn, a thread calls, or the scheduler changes in another way.
pub data Step : Lock → Lock → Type 0 where
  turns : (s : Lock) (h : ℕ) → Step s (turn h s)
  calls : (s : Lock) (me : ℕ) (p : Stage) → Call (s.stage me) p → Step s (go_to me p s)
  schedules : (s : Lock) (next : Scheduler) → Step s (record s { sched = next })

pub data Steps : Lock → Lock → Type 0 where
  stay : (s : Lock) → Steps s s
  and_step : {s t u : Lock} → Steps s t → Step t u → Steps s u

-- The flag is set while a thread has the mutex, and no other thread has it.
pub record IsExclusive (s : Lock) : Type 0 where
  pub flagged : (t : ℕ) → holds (s.stage t) ≡ true → s.locked ≡ true
  pub alone : (t u : ℕ) → holds (s.stage t) ≡ true → holds (s.stage u) ≡ true → t ≡ u

-- What a step does to the mutex.
data Change (me : ℕ) (s s' : Lock) : Type 0 where
  same : s'.locked ≡ s.locked → ((t : ℕ) → holds (s'.stage t) ≡ holds (s.stage t)) → Change me s s'
  takes :
      s.locked ≡ false
      → s'.locked ≡ true
      → ((t : ℕ) → holds (s'.stage t) ≡ (if t == me then true else holds (s.stage t)))
      → Change me s s'
  gives :
      holds (s.stage me) ≡ true
      → ((t : ℕ) → holds (s'.stage t) ≡ (if t == me then false else holds (s.stage t)))
      → Change me s s'

Change-IsExclusive : (me : ℕ) (s s' : Lock) → Change me s s' → IsExclusive s → IsExclusive s'
Change-IsExclusive me s s' (same l p) e = record {
  flagged = λ t h. l ∙ e.flagged t (sym (p t) ∙ h);
  alone = λ t u h k. e.alone t u (sym (p t) ∙ h) (sym (p u) ∙ k);
}
Change-IsExclusive me s s' (takes f l p) e = record {
  flagged = λ t h. l;
  alone = λ t u h k. ground (arith, p t, p u, h, k, e.flagged t, e.flagged u, f);
}
Change-IsExclusive me s s' (gives m p) e = record {
  flagged = λ t h. absurd (ground (arith, p t, h, m, e.alone t me));
  alone = λ t u h k. ground (arith, p t, p u, h, k, e.alone t u);
}

-- Wakes change only the queues and the scheduler.
wake_waiter-kept :
    (h : ℕ) (ws : List ℕ) (s : Lock)
    → ((wake_waiter h ws s).locked ≡ s.locked) × ((wake_waiter h ws s).stage ≡ s.stage)
unfolding wake_waiter
wake_waiter-kept h [] s = (refl, refl)
wake_waiter-kept h (w ∷ rest) s = (refl, refl)

wake_sleeper-kept :
    (h : ℕ) (ws : List ℕ) (s : Lock)
    → ((wake_sleeper h ws s).locked ≡ s.locked) × ((wake_sleeper h ws s).stage ≡ s.stage)
unfolding wake_sleeper
wake_sleeper-kept h [] s = (refl, refl)
wake_sleeper-kept h (w ∷ rest) s = (refl, refl)

wake_sleepers-kept :
    (h : ℕ) (ws : List ℕ) (s : Lock)
    → ((wake_sleepers h ws s).locked ≡ s.locked) × ((wake_sleepers h ws s).stage ≡ s.stage)
unfolding wake_sleepers
wake_sleepers-kept h [] s = (refl, refl)
wake_sleepers-kept h (w ∷ rest) s =
    let r = wake_sleepers-kept h rest (record s { sched = _ }) in (r.0, r.1)

-- A move to a stage that has the mutex as little, or as much, as the one before.
moves :
    (me : ℕ) (p : Stage) (s m : Lock)
    → m.locked ≡ s.locked
    → m.stage ≡ s.stage
    → holds (s.stage me) ≡ holds p
    → Change me s (go_to me p m)
moves me p s m l q e = same l (λ t. elim (Bool-cases (me == t)) [
  | inl here ↦
      let r : me ≡ t = ground (arith, here) in rw here (sym e ∙ ap (λ (x : ℕ). holds (s.stage x)) r)
  | inr other ↦ rw other (ap (λ (f : ℕ → Stage). holds (f t)) q)
])

takes_it :
    (me : ℕ) (p : Stage) (s m : Lock)
    → holds p ≡ true
    → s.locked ≡ false
    → m.locked ≡ true
    → m.stage ≡ s.stage
    → Change me s (go_to me p m)
takes_it me p s m n f l q = takes f l (λ t. elim (Bool-cases (me == t)) [
  | inl here ↦ let back : (t == me) ≡ true = ground (arith, here) in rw (here, back) n
  | inr other ↦
      let back : (t == me) ≡ false = ground (arith, other) in
      rw (other, back) (ap (λ (f : ℕ → Stage). holds (f t)) q)
])

gives_it :
    (me : ℕ) (p : Stage) (s m : Lock)
    → holds p ≡ false
    → m.stage ≡ s.stage
    → holds (s.stage me) ≡ true
    → Change me s (go_to me p m)
gives_it me p s m n q e = gives e (λ t. elim (Bool-cases (me == t)) [
  | inl here ↦ let back : (t == me) ≡ true = ground (arith, here) in rw (here, back) n
  | inr other ↦
      let back : (t == me) ≡ false = ground (arith, other) in
      rw (other, back) (ap (λ (f : ℕ → Stage). holds (f t)) q)
])

Change-if :
    (b : Bool) (me : ℕ) (s x y : Lock)
    → (b ≡ true → Change me s x)
    → (b ≡ false → Change me s y)
    → Change me s (if b then x else y)
Change-if true me s x y h g = h refl
Change-if false me s x y h g = g refl

act-Change : (h me : ℕ) (p : Stage) (s : Lock) → s.stage me ≡ p → Change me s (act h me p s)
unfolding act first_swap second_swap block
act-Change h me away s e = same refl (λ t. refl)
act-Change h me swapping s e =
    Change-if s.locked me s _ _ (λ taken. moves me registering s s refl refl (ap holds e))
      (λ free. takes_it me holding s (record s { locked = true }) refl free refl refl)
act-Change h me registering s e = moves me retrying s _ refl refl (ap holds e)
act-Change h me retrying s e =
    Change-if s.locked me s _ _ (λ taken. moves me blocking s s refl refl (ap holds e))
      (λ free. takes_it me unlisting s _ refl free refl refl)
act-Change h me unlisting s e = moves me holding s _ refl refl (ap holds e)
act-Change h me blocking s e = moves me swapping s _ refl refl (ap holds e)
act-Change h me holding s e = same refl (λ t. refl)
act-Change h me storing s e = gives_it me waking s _ refl refl (ap holds e)
act-Change h me waking s e =
    let k = wake_waiter-kept h s.waiters s in moves me away s _ k.0 k.1 (ap holds e)
act-Change h me listing s e = moves me yielding s _ refl refl (ap holds e)
act-Change h me yielding s e = gives_it me handing s _ refl refl (ap holds e)
act-Change h me handing s e =
    let k = wake_waiter-kept h s.waiters s in moves me resting s _ k.0 k.1 (ap holds e)
act-Change h me resting s e = moves me swapping s _ refl refl (ap holds e)
act-Change h me notifying_one s e =
    let k = wake_sleeper-kept h s.sleepers s in moves me away s _ k.0 k.1 (ap holds e)
act-Change h me notifying_all s e =
    let k = wake_sleepers-kept h s.sleepers s in moves me away s _ k.0 k.1 (ap holds e)

Call-holds : {p q : Stage} → Call p q → holds p ≡ holds q
Call-holds lock = refl
Call-holds notify_one = refl
Call-holds notify_all = refl
Call-holds drop_guard = refl
Call-holds wait = refl

Step-IsExclusive : (s t : Lock) → Step s t → IsExclusive s → IsExclusive t
unfolding turn
Step-IsExclusive s t (turns _ h) e =
    let me = s.sched.current h in Change-IsExclusive me s t (act-Change h me (s.stage me) s refl) e
Step-IsExclusive s t (calls _ me p c) e =
    Change-IsExclusive me s t (moves me p s s refl refl (Call-holds c)) e
Step-IsExclusive s t (schedules _ next) e = record { flagged = e.flagged; alone = e.alone }

-- Where the flag of a mutex is set while a thread has the mutex, and at most one thread has it,
-- the same holds after any steps of the cores in any order: the accesses of lock, unlock, wait,
-- notify_one and notify_all, calls of them by any thread, of unlock and wait only by the one
-- with the guard, and any change of the scheduler.
pub Steps-IsExclusive : (s t : Lock) → Steps s t → IsExclusive s → IsExclusive t
Steps-IsExclusive s t (stay _) e = e
Steps-IsExclusive s t (and_step run last) e =
    Step-IsExclusive _ t last (Steps-IsExclusive s _ run e)
