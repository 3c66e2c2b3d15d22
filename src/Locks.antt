-- ===== src/Locks.antt =====
-- The locks of kernel/src/sync.rs. A spin lock is a flag and the interrupts of the core that takes it.
-- A mutex and a condition variable share their waiters with all cores, so each access to them is a
-- step of its own, and `turn` is the next step of the thread that a core runs.
pub mod Exclusion
use ignium.Base.{
  ℕ, zero, suc, Bool, true, false, ◌&&◌, ◌||◌, not, Option, none, some, List, [], ◌∷◌, ◌++◌, ◌==◌,
  if◌then◌else◌, update,
}
use ignium.Sched.{Scheduler}
use ignium.Sched.Wakes.{wake}
use ignium.Sched.Switch.{block_current}

-- The flag of a spin lock, and whether the interrupts of the core are on.
pub record SpinLock : Type 0 where
  pub flag : Bool
  pub irq : Bool

unfoldable pub irq_save : SpinLock → Bool × SpinLock
irq_save l = (l.irq, record l { irq = false })

unfoldable pub irq_restore : Bool → SpinLock → SpinLock
irq_restore on l = if on then record l { irq = true } else l

-- One round of the swap in `lock`, with the interrupts off; `none` spins on.
unfoldable pub spin : SpinLock → Option SpinLock
spin l = if l.flag then none else some (record l { flag = true })

-- A guard holds what the interrupts were before.
unfoldable pub try_lock : SpinLock → Option Bool × SpinLock
unfolding irq_save irq_restore spin
try_lock l =
    let saved = irq_save l in
    elim (spin saved.1) [
      | none ↦ (none, irq_restore saved.0 saved.1)
      | some taken ↦ (some saved.0, taken)
    ]

-- The end of a guard.
unfoldable pub release : Bool → SpinLock → SpinLock
unfolding irq_restore
release saved l = irq_restore saved (record l { flag = false })

-- What a thread does next: in `Mutex::lock` the first swap, the entry in the queue, the second swap, the
-- removal of the entry and the call of the scheduler; in `unlock` the store and the wake; in `Condvar::wait` the entry, the
-- store, the wake and the call of the scheduler; in `notify_one` and `notify_all` the wakes.
pub data Stage : Type 0 where
  away : Stage
  swapping : Stage
  registering : Stage
  retrying : Stage
  unlisting : Stage
  blocking : Stage
  holding : Stage
  storing : Stage
  waking : Stage
  listing : Stage
  yielding : Stage
  handing : Stage
  resting : Stage
  notifying_one : Stage
  notifying_all : Stage

-- A mutex, a condition variable, the scheduler, and where each thread is in their code.
pub record Lock : Type 0 where
  pub locked : Bool
  pub waiters : List ℕ
  pub sleepers : List ℕ
  pub stage : ℕ → Stage
  pub sched : Scheduler

abbrev pub go_to : ℕ → Stage → Lock → Lock
go_to me p s = record s { stage = update s.stage me p }

-- `pop_back`
unfoldable pub pop_back : List ℕ → List ℕ
pop_back [] = []
pop_back (x ∷ []) = []
pop_back (x ∷ y ∷ xs) = x ∷ pop_back (y ∷ xs)

-- `pop_front`, and a wake if there was a waiter.
unfoldable pub wake_waiter : ℕ → List ℕ → Lock → Lock
unfolding wake
wake_waiter h [] s = record s { waiters = [] }
wake_waiter h (w ∷ rest) s = record s { waiters = rest; sched = (wake h w s.sched).1 }

unfoldable pub wake_sleeper : ℕ → List ℕ → Lock → Lock
unfolding wake
wake_sleeper h [] s = record s { sleepers = [] }
wake_sleeper h (w ∷ rest) s = record s { sleepers = rest; sched = (wake h w s.sched).1 }

unfoldable pub wake_sleepers : ℕ → List ℕ → Lock → Lock
unfolding wake
wake_sleepers h [] s = record s { sleepers = [] }
wake_sleepers h (w ∷ rest) s = wake_sleepers h rest (record s { sched = (wake h w s.sched).1 })

-- The thread gives up its core unless it has been woken, and takes the mutex when it runs again.
unfoldable pub block : ℕ → ℕ → Lock → Lock
unfolding block_current
block h me s = go_to me swapping (record s { sched = (block_current h s.sched).1 })

unfoldable pub first_swap : ℕ → Lock → Lock
first_swap me s =
    if s.locked then go_to me registering s else go_to me holding (record s { locked = true })

unfoldable pub second_swap : ℕ → Lock → Lock
second_swap me s =
    if s.locked then go_to me blocking s else go_to me unlisting (record s { locked = true })

unfoldable pub act : ℕ → ℕ → Stage → Lock → Lock
unfolding first_swap second_swap pop_back wake_waiter wake_sleeper wake_sleepers block
act h me away s = s
act h me swapping s = first_swap me s
act h me registering s = go_to me retrying (record s { waiters = s.waiters ++ me ∷ [] })
act h me retrying s = second_swap me s
act h me unlisting s = go_to me holding (record s { waiters = pop_back s.waiters })
act h me blocking s = block h me s
act h me holding s = s
act h me storing s = go_to me waking (record s { locked = false })
act h me waking s = go_to me away (wake_waiter h s.waiters s)
act h me listing s = go_to me yielding (record s { sleepers = s.sleepers ++ me ∷ [] })
act h me yielding s = go_to me handing (record s { locked = false })
act h me handing s = go_to me resting (wake_waiter h s.waiters s)
act h me resting s = block h me s
act h me notifying_one s = go_to me away (wake_sleeper h s.sleepers s)
act h me notifying_all s = go_to me away (wake_sleepers h s.sleepers s)

-- The next step of the thread that core `h` runs: `sched::current_id()`.
unfoldable pub turn : ℕ → Lock → Lock
unfolding act
turn h s = act h (s.sched.current h) (s.stage (s.sched.current h)) s
