-- ===== src/Ipc/Rendezvous.antt =====
-- What `send`, `recv` and `purge_process` of kernel/src/ipc.rs promise: who meets whom.
use ignium.Ipc.Queues.{IsFirst, Never, take_first-push, take_first-none, take_first-some}
use ignium.Kernel.{as_proc}
use ignium.Process.{ProcessTable, cap_target}
use ignium.Base.{
  ℕ, ◌≡◌, refl, true, Option, none, some, List, [], ◌∷◌, ◌++◌, ◌⊎◌, inl, inr, arith, Result, ok,
  err,
}
use ignium.Ipc.{
  send, recv, take_first, match_recv, Msg, IpcState, send_done, PendingRecv, source_of,
  ipc_wake_with_msg, waits_for, comes_from, recv_done, ipc_accept_any, PendingSend,
}

recv_pushed :
    (t : ProcessTable) (tid pid slot src : ℕ) (x : PendingSend) (s : IpcState)
    → source_of (cap_target t pid slot) ≡ ok src
    → Never (comes_from src pid) s.sends
    → comes_from src pid x ≡ true
    → recv t tid pid slot (record { sends = s.sends ++ x ∷ []; recvs = s.recvs }) ≡ record {
      result = ok (recv_done x.msg);
      ipc = s;
      calls = ipc_wake_with_msg x.sender_tid none ∷ [];
    }
unfolding recv
recv_pushed t tid pid slot src x s f n own =
    rw (f, recv, take_first-push (comes_from src pid) s.sends x n own) refl

-- A message that finds no receiver waits at the end of its queue.
send_queues :
    (t : ProcessTable) (tid pid slot dst : ℕ) (msg : Msg) (s : IpcState)
    → as_proc (cap_target t pid slot) ≡ ok dst
    → match_recv s.recvs dst pid ≡ none
    → (send t tid pid slot msg s).ipc ≡ record {
      sends =
          s.sends ++ record { sender_tid = tid; sender_pid = pid; dst_pid = dst; msg = msg } ∷ [];
      recvs = s.recvs;
    }
unfolding send
send_queues t tid pid slot dst msg s e m = rw (e, m, send) refl

-- A message that found no receiver is handed, unchanged, to the next receive by its destination
-- that names the sender, if no older message of that sender waits for it; the sender alone is
-- woken, and the queues are as before the message.
pub send-recv :
    (t : ProcessTable) (tid pid slot dst tid' slot' : ℕ) (msg : Msg) (s : IpcState)
    → as_proc (cap_target t pid slot) ≡ ok dst
    → source_of (cap_target t dst slot') ≡ ok pid
    → match_recv s.recvs dst pid ≡ none
    → Never (comes_from pid dst) s.sends
    → recv t tid' dst slot' (send t tid pid slot msg s).ipc
      ≡ record { result = ok (recv_done msg); ipc = s; calls = ipc_wake_with_msg tid none ∷ [] }
send-recv t tid pid slot dst tid' slot' msg s e f m n =
    rw (send_queues t tid pid slot dst msg s e m) (
      recv_pushed t tid' dst slot' pid
        (record { sender_tid = tid; sender_pid = pid; dst_pid = dst; msg = msg }) s f n
        (ground arith))

-- A send that reports delivery had a capability for the receiving process, and woke one waiting
-- receiver of that process with the message: the first that names the sender, and where there
-- is none the first that accepts any. That receiver leaves the queue, and nothing else changes.
pub send_delivers :
    (t : ProcessTable) (tid pid slot : ℕ) (msg : Msg) (s : IpcState)
    → (send t tid pid slot msg s).result ≡ ok send_done
    → (dst : ℕ) × (r : PendingRecv) × (rest : List PendingRecv) × (as_proc (cap_target t pid slot)
        ≡ ok dst)
      × ((send t tid pid slot msg s).ipc ≡ record { sends = s.sends; recvs = rest })
      × ((send t tid pid slot msg s).calls ≡ ipc_wake_with_msg r.recver_tid (some msg) ∷ [])
      × (IsFirst (waits_for dst pid) s.recvs r rest
          ⊎ (Never (waits_for dst pid) s.recvs
              × IsFirst (waits_for dst ipc_accept_any) s.recvs r rest))
unfolding send match_recv
send_delivers t tid pid slot msg s h = go (as_proc (cap_target t pid slot)) refl
  where
    Delivered : Type 0
    Delivered =
        (dst : ℕ) × (r : PendingRecv) × (rest : List PendingRecv) × (as_proc (cap_target t pid slot)
          ≡ ok dst)
        × ((send t tid pid slot msg s).ipc ≡ record { sends = s.sends; recvs = rest })
        × ((send t tid pid slot msg s).calls ≡ ipc_wake_with_msg r.recver_tid (some msg) ∷ [])
        × (IsFirst (waits_for dst pid) s.recvs r rest
            ⊎ (Never (waits_for dst pid) s.recvs
                × IsFirst (waits_for dst ipc_accept_any) s.recvs r rest))

    any_case :
        (dst : ℕ) (o : Option (PendingRecv × List PendingRecv))
        → as_proc (cap_target t pid slot) ≡ ok dst
        → take_first (waits_for dst pid) s.recvs ≡ none
        → take_first (waits_for dst ipc_accept_any) s.recvs ≡ o
        → Delivered
    any_case dst none e f g = ground (arith, h, e, f, g)
    any_case dst (some x) e f g = (
      dst,
      x.0,
      x.1,
      e,
      rw (e, f, g, send) refl,
      rw (e, f, g, send) refl,
      inr (
        take_first-none (waits_for dst pid) s.recvs f,
        take_first-some (waits_for dst ipc_accept_any) s.recvs x.0 x.1 g,
      ),
    )

    named_case :
        (dst : ℕ) (o : Option (PendingRecv × List PendingRecv))
        → as_proc (cap_target t pid slot) ≡ ok dst
        → take_first (waits_for dst pid) s.recvs ≡ o
        → Delivered
    named_case dst none e f =
        any_case dst (take_first (waits_for dst ipc_accept_any) s.recvs) e f refl
    named_case dst (some x) e f = (
      dst,
      x.0,
      x.1,
      e,
      rw (e, f, send) refl,
      rw (e, f, send) refl,
      inl (take_first-some (waits_for dst pid) s.recvs x.0 x.1 f),
    )

    go : (o : Result ℕ ℕ) → as_proc (cap_target t pid slot) ≡ o → Delivered
    go (err c) e = ground (arith, h, e)
    go (ok dst) e = named_case dst (take_first (waits_for dst pid) s.recvs) e refl
