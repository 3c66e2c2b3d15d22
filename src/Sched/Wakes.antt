-- ===== src/Sched/Wakes.antt =====
-- Waking a thread (kernel/src/sched.rs: `wake`, `ipc_wake_with_msg`, `ipc_wake_with_err`,
-- `donate_on_block`, `take_ipc_msg`). The number returned with the state is the core that is sent an
-- interrupt.
use ignium.Base.{ℕ, true, ◌&&◌, Option, none, some, ◌==◌, ltb, if◌then◌else◌, update, not}
use ignium.Ipc.{Msg}
use ignium.Sched.{Scheduler, put_thread, enqueue, is_blocked, wake_msg, wake_err}
use ignium.Sched.Donations.{revoke_donations, register_donation}
use ignium.Sched.Switch.{put_words, past_ecall, x_a0}

unfoldable pub ipi_wake_cross_hart : ℕ → ℕ → Scheduler → Option ℕ
ipi_wake_cross_hart tid my_hart s =
    let tgt = (s.threads tid).hart in
    if not (tgt == my_hart) && s.current tgt == s.idle tgt then some tgt else none

unfoldable pub wake : ℕ → ℕ → Scheduler → Option ℕ × Scheduler
wake my_hart id s =
    let s1 = put_thread s id (record (s.threads id) { woken = true }) in
    let s2 = enqueue id s1 in
    if ltb id s.thread_count
    then if is_blocked (s.threads id).state
      then (ipi_wake_cross_hart id my_hart s2, s2)
      else (none, s1)
    else (none, s)

-- `[code; MSG_WORDS]` and `[0; MSG_WORDS]`
abbrev pub all_words : ℕ → Msg
all_words w = (w, w, w, w, w)

abbrev pub words_of : Option Msg → Msg
words_of none = all_words 0
words_of (some m) = m

abbrev pub with_words : Option Msg → (ℕ → ℕ) → ℕ → ℕ
with_words none f = f
with_words (some m) f = put_words m f

-- The end of a wake of a blocked thread.
unfoldable pub wake_blocked : ℕ → ℕ → Scheduler → Option ℕ × Scheduler
wake_blocked my_hart tid s =
    let s1 = enqueue tid s in (ipi_wake_cross_hart tid my_hart s1, revoke_donations tid s1)

unfoldable pub ipc_wake_with_msg : ℕ → ℕ → Option Msg → Scheduler → Option ℕ × Scheduler
ipc_wake_with_msg my_hart tid msg s =
    let t = s.threads tid in
    if not (is_blocked t.state)
    then (
      none,
      put_thread s tid
          (record t { ipc_msg = some (words_of msg); ipc_wake = some (wake_msg (words_of msg)) }),
    )
    else wake_blocked my_hart tid (
        put_thread s tid (record t {
          frame = past_ecall (with_words msg (update t.frame x_a0 0));
          ipc_msg = msg;
          ipc_wake = none;
        }))

unfoldable pub ipc_wake_with_err : ℕ → ℕ → ℕ → Scheduler → Option ℕ × Scheduler
ipc_wake_with_err my_hart tid code s =
    let t = s.threads tid in
    if not (is_blocked t.state)
    then (
      none,
      put_thread s tid
          (record t { ipc_msg = some (all_words code); ipc_wake = some (wake_err code) }),
    )
    else wake_blocked my_hart tid (
        put_thread s tid (record t {
          frame = past_ecall (update t.frame x_a0 code);
          ipc_msg = some (all_words code);
          ipc_wake = none;
        }))

unfoldable pub donate_on_block : ℕ → ℕ → Scheduler → Scheduler
donate_on_block donor_tid peer_proc s = register_donation donor_tid peer_proc s

unfoldable pub take_ipc_msg : ℕ → Scheduler → Option Msg × Scheduler
take_ipc_msg h s =
    let id = s.current h in
    ((s.threads id).ipc_msg, put_thread s id (record (s.threads id) { ipc_msg = none }))
