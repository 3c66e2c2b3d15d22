-- ===== src/Ipc/Purge.antt =====
-- What the death of a process does to the queues (`purge_process` of kernel/src/ipc.rs).
use ignium.Abi.{sys_err_enoent}
use ignium.Ipc.{
  purge_process, retain, wake_recvs, wake_sends, PendingRecv, PendingSend, SchedCall, IpcState,
  ipc_wake_with_err,
}
use ignium.Base.{map, ℕ, ◌≡◌, refl, Bool, ◌&&◌, ◌||◌, List, [], ◌∷◌, ◌++◌, arith, ◌==◌, not}

-- An entry names a process: it is its own, or it waits for it.
abbrev pub recv_names : ℕ → PendingRecv → Bool
recv_names pid r = r.recver_pid == pid || r.src_pid == pid

abbrev pub send_names : ℕ → PendingSend → Bool
send_names pid s = s.sender_pid == pid || s.dst_pid == pid

-- The entries of other processes that wait for a process.
abbrev pub bereft_recv : ℕ → PendingRecv → Bool
bereft_recv pid r = r.src_pid == pid && not (r.recver_pid == pid)

abbrev pub bereft_send : ℕ → PendingSend → Bool
bereft_send pid s = s.dst_pid == pid && not (s.sender_pid == pid)

abbrev pub gone : ℕ → SchedCall
gone tid = ipc_wake_with_err tid sys_err_enoent

retain_twice :
    {A : Type 0} (p q r : A → Bool) (xs : List A)
    → ((x : A) → r x ≡ (q x && p x))
    → retain p (retain q xs) ≡ retain r xs
unfolding retain
retain_twice p q r [] h = refl
retain_twice p q r (x ∷ xs) h = ground (arith, h x, retain_twice p q r xs h)

wake_recvs_lem :
    (pid : ℕ) (rs : List PendingRecv)
    → wake_recvs pid rs ≡ map (λ r. gone r.recver_tid) (retain (bereft_recv pid) rs)
unfolding wake_recvs retain
wake_recvs_lem pid [] = refl
wake_recvs_lem pid (r ∷ rs) = ground (arith, wake_recvs_lem pid rs)

wake_sends_lem :
    (pid : ℕ) (ss : List PendingSend)
    → wake_sends pid ss ≡ map (λ s. gone s.sender_tid) (retain (bereft_send pid) ss)
unfolding wake_sends retain
wake_sends_lem pid [] = refl
wake_sends_lem pid (s ∷ ss) = ground (arith, wake_sends_lem pid ss)

-- The death of a process takes every entry that names it out of the IPC queues and leaves the
-- others in their order; the threads of other processes that waited for it, and no others, are
-- woken with ENOENT, receivers before senders, each in the order of its queue.
pub purge_process_lem :
    (pid : ℕ) (s : IpcState)
    → ((purge_process pid s).ipc.sends ≡ retain (λ x. not (send_names pid x)) s.sends)
      × ((purge_process pid s).ipc.recvs ≡ retain (λ r. not (recv_names pid r)) s.recvs)
      × ((purge_process pid s).calls
          ≡ map (λ r. gone r.recver_tid) (retain (bereft_recv pid) s.recvs)
            ++ map (λ x. gone x.sender_tid) (retain (bereft_send pid) s.sends))
unfolding purge_process
purge_process_lem pid s = (
  retain_twice _ _ _ s.sends (λ x. ground arith),
  retain_twice _ _ _ s.recvs (λ x. ground arith),
  rw (wake_recvs_lem pid s.recvs, wake_sends_lem pid s.sends) refl,
)
