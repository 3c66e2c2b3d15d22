-- ===== src/Tests/Locks.antt =====
-- A mutex that three cores use: thread 2 has it when threads 0 and 1 ask for it.
use ignium.Base.{◌≡◌, refl, Bool, true, false, [], ◌∷◌, arith}
use ignium.Sched.{Scheduler, put_thread}
use ignium.Sched.Spawns.{init, idle_thread}
use ignium.Locks.{away, swapping, storing, blocking, Lock, go_to, turn, try_lock, release}
use ignium.Locks.Exclusion.{
  IsExclusive, Steps, stay, and_step, turns, calls, lock, Steps-IsExclusive,
}
use ignium.Tests.Sched.{booted}

abbrev cores : Scheduler
cores = record booted { current = λ h. h }

abbrev start : Lock
start = record { locked = false; waiters = []; sleepers = []; stage = λ t. away; sched = cores }

start-IsExclusive : IsExclusive start
start-IsExclusive = record {
  flagged = λ t h. ground (arith, h);
  alone = λ t u h k. ground (arith, h);
}

-- Thread 2 takes the mutex.
abbrev held : Lock
held = turn 2 (go_to 2 swapping start)

held-Steps : Steps start held
held-Steps = and_step (and_step (stay start) (calls start 2 swapping lock)) (turns _ 2)

Steps-IsExclusive_example : IsExclusive held
Steps-IsExclusive_example = Steps-IsExclusive start held held-Steps start-IsExclusive

-- Threads 0 and 1 enter the queue; thread 1 fails to take the mutex again and is about to block.
abbrev queued : Lock
queued = turn 1 (turn 1 (turn 1 (go_to 1 swapping (turn 0 (turn 0 (go_to 0 swapping held))))))

-- Thread 2 gives the mutex up and wakes thread 0, which has not yet tried again, and now does.
abbrev taken : Lock
taken = turn 0 (turn 0 (turn 2 (turn 2 (go_to 2 storing queued))))

queued_waiters : queued.waiters ≡ 0 ∷ 1 ∷ []
unfolding turn
queued_waiters = refl

-- The entry of thread 1 has gone from the queue, though it blocks.
taken_waiters : taken.waiters ≡ []
unfolding turn init idle_thread put_thread
taken_waiters = refl

taken_stage : taken.stage 1 ≡ blocking
unfolding turn init idle_thread put_thread
taken_stage = refl

-- A guard gives the interrupts back as they were.
spin_round :
    (irq : Bool) → (release irq (try_lock (record { flag = false; irq = irq })).1).irq ≡ irq
unfolding try_lock release
spin_round true = refl
spin_round false = refl
