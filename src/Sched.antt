-- ===== src/Sched.antt =====
-- The scheduler's state and the operations on its ready queues (kernel/src/sched.rs: `Scheduler` and
-- its methods). The thread table is a function of the thread's number with a count beside it; the
-- queues are a function of the core and the level, each a list with its front first; a kernel stack is
-- its owner's number.
pub mod Queues
pub mod Donations
pub mod Inheritance
pub mod Picks
pub mod Switch
pub mod Wakes
pub mod Preempt
pub mod Spawns
pub mod Kills
pub mod Kept
pub mod Running
pub mod Leaving
pub mod Manned
pub mod Blocking
pub mod Waking
pub mod Ticking
pub mod Making
pub mod Idle
pub mod Migrating
pub mod Steps
pub mod Bounds
pub mod Delivery
pub mod Faults
use ignium.Base.{
  ℕ, zero, suc, ◌+◌, ◌-◌, ◌*◌, ◌≤◌, ◌<◌, ◌≡◌, ◌≢◌, refl, Bool, true, false, ◌&&◌, ◌||◌, Option,
  none, some, List, [], ◌∷◌, ◌++◌, ◌⊎◌, inl, inr, arith, Result, ok, err, ◌==◌, ltb, leb, ◌>>=◌,
  ◌>>◌, if◌then◌else◌, length, get_elem?, set, update, not, take,
}
use ignium.Ipc.{Msg}
use ignium.Base.Counting.{keep}

abbrev pub max_threads : ℕ
max_threads = 64

abbrev pub prio_levels : ℕ
prio_levels = 3

abbrev pub max_harts : ℕ
max_harts = 4

abbrev pub slice_ticks : ℕ
slice_ticks = 10

pub data ThreadState : Type 0 where
  ready running blocked exited : ThreadState

pub data IpcWake : Type 0 where
  wake_msg : Msg → IpcWake
  wake_err : ℕ → IpcWake

pub record Context : Type 0 where
  pub ra : ℕ
  pub sp : ℕ
  pub s : ℕ → ℕ

pub record Thread : Type 0 where
  pub prio : ℕ
  pub state : ThreadState
  pub ctx : Context
  pub frame : ℕ → ℕ
  pub frame_valid : Bool
  pub ctx_valid : Bool
  pub woken : Bool
  pub ipc_msg : Option Msg
  pub ipc_wake : Option IpcWake
  pub proc : Option ℕ
  pub hart : ℕ
  pub root : ℕ
  pub entry : ℕ
  pub stack : Bool

pub record Donation : Type 0 where
  pub donor_tid : ℕ
  pub peer_proc : ℕ
  pub prio : ℕ

pub record Scheduler : Type 0 where
  pub threads : ℕ → Thread
  pub thread_count : ℕ
  pub ready_queues : ℕ → ℕ → List ℕ
  pub donations : List Donation
  pub current : ℕ → ℕ
  pub idle : ℕ → ℕ
  pub ticks_run : ℕ → ℕ
  pub free_slots : List ℕ
  pub reaper : List ℕ
  -- `THREAD_KILL_REQUEST`
  pub kill_requests : ℕ → Bool

abbrev pub is_ready : ThreadState → Bool
is_ready ready = true
is_ready _ = false

abbrev pub is_running : ThreadState → Bool
is_running running = true
is_running _ = false

abbrev pub is_blocked : ThreadState → Bool
is_blocked blocked = true
is_blocked _ = false

abbrev pub is_proc : Option ℕ → ℕ → Bool
is_proc none p = false
is_proc (some q) p = q == p

-- Writing one thread, and one queue.
unfoldable pub put_thread : Scheduler → ℕ → Thread → Scheduler
put_thread s id t = record s { threads = update s.threads id t }

unfoldable pub put_queue : Scheduler → ℕ → ℕ → List ℕ → Scheduler
put_queue s h l q = record s {
  ready_queues = λ h' l'. if h == h' && l == l' then q else s.ready_queues h' l';
}

-- The loop over the donations.
unfoldable pub lowest : List Donation → ℕ → ℕ → ℕ
lowest [] proc p = p
lowest (d ∷ ds) proc p = lowest ds proc (if d.peer_proc == proc && ltb d.prio p then d.prio else p)

abbrev pub donated : List Donation → Option ℕ → ℕ → ℕ
donated ds none p = p
donated ds (some proc) p = lowest ds proc p

unfoldable pub eff_prio : Scheduler → ℕ → ℕ
eff_prio s id = donated s.donations (s.threads id).proc (s.threads id).prio

unfoldable pub enqueue : ℕ → Scheduler → Scheduler
unfolding put_queue put_thread
enqueue id s =
    let t = s.threads id in
    let l = eff_prio s id in
    put_thread (put_queue s t.hart l (s.ready_queues t.hart l ++ id ∷ [])) id
      (record t { state = ready })

-- The test of a candidate by `pick_next`.
abbrev pub eligible : Bool → Thread → Bool
eligible need_ctx t =
    if need_ctx then t.ctx_valid || t.frame_valid else t.frame_valid || (t.ctx_valid && t.woken)

-- The inner loop of `pick_next` over one queue, for `n` rounds: the thread found, and the queue left.
unfoldable pub pick_level : (ℕ → Thread) → Bool → ℕ → List ℕ → Option ℕ × List ℕ
pick_level threads need_ctx zero q = (none, q)
pick_level threads need_ctx (suc n) [] = (none, [])
pick_level threads need_ctx (suc n) (id ∷ q) =
    let dropped = pick_level threads need_ctx n q in
    let rotated = pick_level threads need_ctx n (q ++ id ∷ []) in
    if not (is_ready (threads id).state)
    then dropped
    else if eligible need_ctx (threads id)
    then (some id, q)
    else rotated

-- The loop over the levels from `l`, `n` of them.
unfoldable pub pick_from : ℕ → Bool → ℕ → ℕ → Scheduler → Option ℕ × Scheduler
unfolding pick_level put_queue put_thread
pick_from hart need_ctx l zero s = (none, s)
pick_from hart need_ctx l (suc n) s =
    let q = s.ready_queues hart l in
    let r = pick_level s.threads need_ctx (length q) q in
    let s' = put_queue s hart l r.1 in
    elim r.0 [
      | none ↦ pick_from hart need_ctx (suc l) n s'
      | some id ↦ (some id, put_thread s' id (record (s.threads id) { state = running }))
    ]

-- What runs when no thread is found: the current thread, or the core's idle thread.
abbrev pub fallback : ℕ → Scheduler → ℕ
fallback hart s =
    if is_running (s.threads (s.current hart)).state then s.current hart else s.idle hart

unfoldable pub pick_next : ℕ → Bool → Scheduler → ℕ × Scheduler
unfolding pick_from
pick_next hart need_ctx s =
    let r = pick_from hart need_ctx 0 prio_levels s in
    elim r.0 [ none ↦ (fallback hart r.1, r.1) | some id ↦ (id, r.1) ]

-- `remove_from_ready`: the first occurrence, in the first queue that has one.
unfoldable pub drop_first : ℕ → List ℕ → Option (List ℕ)
drop_first id [] = none
drop_first id (x ∷ xs) =
    let rest = drop_first id xs in
    if x == id then some xs else elim rest [ none ↦ none | some ys ↦ some (x ∷ ys) ]

unfoldable pub remove_from : ℕ → ℕ → ℕ → ℕ → Scheduler → Scheduler
unfolding drop_first put_queue
remove_from id hart l zero s = s
remove_from id hart l (suc n) s = elim (drop_first id (s.ready_queues hart l)) [
  | none ↦ remove_from id hart (suc l) n s
  | some q ↦ put_queue s hart l q
]

unfoldable pub remove_from_ready : ℕ → Scheduler → Scheduler
unfolding remove_from
remove_from_ready id s = remove_from id (s.threads id).hart 0 prio_levels s

unfoldable pub preemptable : Scheduler → ℕ → Bool
preemptable s id = is_ready (s.threads id).state && eligible false (s.threads id)

-- What the queues hold of the threads that pass a test, core by core and level by level.
unfoldable pub gather_levels : Scheduler → (ℕ → Bool) → ℕ → ℕ → ℕ → List ℕ
gather_levels s p h l zero = []
gather_levels s p h l (suc n) = keep p (s.ready_queues h l) ++ gather_levels s p h (suc l) n

unfoldable pub gather_harts : Scheduler → (ℕ → Bool) → ℕ → ℕ → List ℕ
unfolding gather_levels
gather_harts s p h zero = []
gather_harts s p h (suc n) = gather_levels s p h 0 prio_levels ++ gather_harts s p (suc h) n

unfoldable pub enqueue_all : List ℕ → Scheduler → Scheduler
unfolding enqueue
enqueue_all [] s = s
enqueue_all (id ∷ ids) s = enqueue_all ids (enqueue id s)

-- The threads of a process.
abbrev pub belongs : Scheduler → ℕ → ℕ → Bool
belongs s proc id = is_proc (s.threads id).proc proc

-- The queues without the threads that pass a test.
unfoldable pub retain_queues : (ℕ → Bool) → Scheduler → Scheduler
retain_queues p s = record s { ready_queues = λ h l. keep p (s.ready_queues h l) }

-- The buffer holds `MAX_THREADS` threads; what goes beyond is lost.
unfoldable pub requeue_proc_threads : ℕ → Scheduler → Scheduler
unfolding gather_harts enqueue_all retain_queues
requeue_proc_threads proc s =
    let p : ℕ → Bool = belongs s proc in
    enqueue_all (take max_threads (gather_harts s p 0 max_harts))
      (retain_queues (λ id. not (p id)) s)
