-- ===== src/Ipc/Listening.antt =====
-- The receive that accepts any sender (`recv` on an empty slot, kernel/src/ipc.rs), before and after
-- the message.
use ignium.Kernel.{as_proc}
use ignium.Ipc.Queues.{Never, take_first-Never, Never-push, take_first-push}
use ignium.Base.{
  ℕ, ◌<◌, ◌≡◌, refl, true, false, none, some, List, [], ◌∷◌, ◌++◌, arith, ok, err, ◌==◌,
}
use ignium.Ipc.{
  send, recv, match_recv, PendingRecv, PendingSend, Msg, ipc_accept_any, IpcState, comes_from,
  waits_for, send_done, recv_no_peer, send_no_peer, ipc_wake_with_msg, donate_on_block,
}
use ignium.Process.{not_found, ProcessTable, cap_target}

-- A message of `pid` to `dst`, and a receive of `dst` from any sender.
abbrev pub message : ℕ → ℕ → ℕ → Msg → PendingSend
message tid pid dst msg = record { sender_tid = tid; sender_pid = pid; dst_pid = dst; msg = msg }

abbrev pub listener : ℕ → ℕ → PendingRecv
listener tid pid = record { recver_tid = tid; recver_pid = pid; src_pid = ipc_accept_any }

-- Every waiting message is of a real process.
abbrev pub Real : List PendingSend → Type 0
Real = Never (λ x. x.sender_pid == ipc_accept_any)

Real-Never :
    (dst : ℕ) (sends : List PendingSend) → Real sends → Never (comes_from ipc_accept_any dst) sends
Real-Never dst [] h = tt
Real-Never dst (x ∷ xs) h = (ground (arith, h.0), Real-Never dst xs h.1)

listen :
    (t : ProcessTable) (tid pid slot : ℕ) (s : IpcState)
    → cap_target t pid slot ≡ err not_found
    → Real s.sends
    → recv t tid pid slot s ≡ record {
      result = ok recv_no_peer;
      ipc = record { sends = s.sends; recvs = s.recvs ++ listener tid pid ∷ [] };
      calls = [];
    }
unfolding recv
listen t tid pid slot s e h =
    rw
      (e, recv, take_first-Never (comes_from ipc_accept_any pid) s.sends (Real-Never pid s.sends h))
      refl

wait :
    (t : ProcessTable) (tid pid slot dst : ℕ) (msg : Msg) (s : IpcState)
    → as_proc (cap_target t pid slot) ≡ ok dst
    → match_recv s.recvs dst pid ≡ none
    → send t tid pid slot msg s ≡ record {
      result = ok send_no_peer;
      ipc = record { sends = s.sends ++ message tid pid dst msg ∷ []; recvs = s.recvs };
      calls = donate_on_block tid dst ∷ [];
    }
unfolding send
wait t tid pid slot dst msg s e m = rw (e, m, send) refl

-- If every waiting message is of a real process, a real process that holds a capability for
-- another sends it a message that no receiver waits for, and the other then listens on an empty
-- slot, the two do not meet: both threads wait, and the listening wakes nobody.
pub listen_misses :
    (t : ProcessTable) (tid pid slot dst tid' slot' : ℕ) (msg : Msg) (s : IpcState)
    → as_proc (cap_target t pid slot) ≡ ok dst
    → cap_target t dst slot' ≡ err not_found
    → match_recv s.recvs dst pid ≡ none
    → Real s.sends
    → pid < ipc_accept_any
    → recv t tid' dst slot' (send t tid pid slot msg s).ipc ≡ record {
      result = ok recv_no_peer;
      ipc = record {
        sends = s.sends ++ message tid pid dst msg ∷ [];
        recvs = s.recvs ++ listener tid' dst ∷ [];
      };
      calls = [];
    }
listen_misses t tid pid slot dst tid' slot' msg s e f m real small =
    rw (wait t tid pid slot dst msg s e m) (
      listen t tid' dst slot'
        (record { sends = s.sends ++ message tid pid dst msg ∷ []; recvs = s.recvs }) f
        (Never-push _ s.sends (message tid pid dst msg) real (ground arith)))

send_matched :
    (t : ProcessTable) (tid pid slot dst : ℕ) (msg : Msg) (r : PendingRecv) (s : IpcState)
    (rest : List PendingRecv)
    → as_proc (cap_target t pid slot) ≡ ok dst
    → match_recv s.recvs dst pid ≡ some (r, rest)
    → send t tid pid slot msg s ≡ record {
      result = ok send_done;
      ipc = record { sends = s.sends; recvs = rest };
      calls = ipc_wake_with_msg r.recver_tid (some msg) ∷ [];
    }
unfolding send
send_matched t tid pid slot dst msg r s rest e m = rw (e, m, send) refl

match_listener :
    (dst tid pid : ℕ) (recvs : List PendingRecv)
    → Never (waits_for dst pid) recvs
    → Never (waits_for dst ipc_accept_any) recvs
    → pid < ipc_accept_any
    → match_recv (recvs ++ listener tid dst ∷ []) dst pid ≡ some (listener tid dst, recvs)
unfolding match_recv
match_listener dst tid pid recvs h g small =
    let other : waits_for dst pid (listener tid dst) ≡ false = ground arith in
    let own : waits_for dst ipc_accept_any (listener tid dst) ≡ true = ground arith in
    rw
      (
        take_first-Never (waits_for dst pid) (recvs ++ listener tid dst ∷ [])
            (Never-push _ recvs (listener tid dst) h other),
        match_recv,
        take_first-push (waits_for dst ipc_accept_any) recvs (listener tid dst) g own,
      )
      refl

-- A process that listens on an empty slot before a real process that holds a capability for it
-- sends it a message is woken with it, and the queues are as before, where no other receiver
-- waits for that message and every waiting message is of a real process.
pub listen_hears :
    (t : ProcessTable) (tid pid slot dst tid' slot' : ℕ) (msg : Msg) (s : IpcState)
    → as_proc (cap_target t pid slot) ≡ ok dst
    → cap_target t dst slot' ≡ err not_found
    → Never (waits_for dst pid) s.recvs
    → Never (waits_for dst ipc_accept_any) s.recvs
    → Real s.sends
    → pid < ipc_accept_any
    → send t tid pid slot msg (recv t tid' dst slot' s).ipc
      ≡ record { result = ok send_done; ipc = s; calls = ipc_wake_with_msg tid' (some msg) ∷ [] }
listen_hears t tid pid slot dst tid' slot' msg s e f h g real small =
    rw (listen t tid' dst slot' s f real) (
      send_matched t tid pid slot dst msg (listener tid' dst)
        (record { sends = s.sends; recvs = s.recvs ++ listener tid' dst ∷ [] }) s.recvs e
        (match_listener dst tid' pid s.recvs h g small))
