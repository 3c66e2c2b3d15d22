-- ===== src/Ipc/Waiting.antt =====
-- The queues of kernel/src/ipc.rs never hold a send and a receive that are meant for each other.
use ignium.Kernel.{as_proc}
use ignium.Ipc.Queues.{
  Never-retain, Never, Never-without, Never-push, IsFirst, take_first-none, take_first-some,
}
use ignium.Base.{
  ℕ, ◌≡◌, refl, Bool, Option, none, some, List, [], ◌∷◌, ◌++◌, inl, inr, arith, Result, ok, err,
  Bool-cases, subst, sym,
}
use ignium.Ipc.{
  send, recv, purge_process, take_first, match_recv, retain, PendingRecv, IpcState, PendingSend,
  waits_for, comes_from, Msg, source_of, ipc_accept_any,
}
use ignium.Process.{ProcessTable, cap_target}

-- A receive that names its sender is waited for by no send.
abbrev pub Unmatched : List PendingSend → List PendingRecv → Type 0
Unmatched sends [] = Unit
Unmatched sends (r ∷ rs) = Never (comes_from r.src_pid r.recver_pid) sends × Unmatched sends rs

Unmatched-push_send :
    (sends : List PendingSend) (recvs : List PendingRecv) (x : PendingSend)
    → Unmatched sends recvs
    → Never (waits_for x.dst_pid x.sender_pid) recvs
    → Unmatched (sends ++ x ∷ []) recvs
Unmatched-push_send sends [] x u n = tt
Unmatched-push_send sends (r ∷ rs) x u n = (
  Never-push (comes_from r.src_pid r.recver_pid) sends x u.0 (ground (arith, n.0)),
  Unmatched-push_send sends rs x u.1 n.1,
)

Unmatched-push_recv :
    (sends : List PendingSend) (recvs : List PendingRecv) (r : PendingRecv)
    → Unmatched sends recvs
    → Never (comes_from r.src_pid r.recver_pid) sends
    → Unmatched sends (recvs ++ r ∷ [])
Unmatched-push_recv sends [] r u n = (n, tt)
Unmatched-push_recv sends (x ∷ xs) r u n = (u.0, Unmatched-push_recv sends xs r u.1 n)

Unmatched-drop_recv :
    (sends : List PendingSend) (xs : List PendingRecv) (r : PendingRecv) (ys : List PendingRecv)
    → Unmatched sends (xs ++ r ∷ ys)
    → Unmatched sends (xs ++ ys)
Unmatched-drop_recv sends [] r ys u = u.1
Unmatched-drop_recv sends (x ∷ xs) r ys u = (u.0, Unmatched-drop_recv sends xs r ys u.1)

Unmatched-drop_send :
    (xs : List PendingSend) (x : PendingSend) (ys : List PendingSend) (recvs : List PendingRecv)
    → Unmatched (xs ++ x ∷ ys) recvs
    → Unmatched (xs ++ ys) recvs
Unmatched-drop_send xs x ys [] u = tt
Unmatched-drop_send xs x ys (r ∷ rs) u = (
  Never-without (comes_from r.src_pid r.recver_pid) xs x ys u.0,
  Unmatched-drop_send xs x ys rs u.1,
)

Unmatched-retain_sends :
    (q : PendingSend → Bool) (sends : List PendingSend) (recvs : List PendingRecv)
    → Unmatched sends recvs
    → Unmatched (retain q sends) recvs
Unmatched-retain_sends q sends [] u = tt
Unmatched-retain_sends q sends (r ∷ rs) u = (
  Never-retain (comes_from r.src_pid r.recver_pid) q sends u.0,
  Unmatched-retain_sends q sends rs u.1,
)

Unmatched-retain_recvs :
    (q : PendingRecv → Bool) (sends : List PendingSend) (recvs : List PendingRecv)
    → Unmatched sends recvs
    → Unmatched sends (retain q recvs)
unfolding retain
Unmatched-retain_recvs q sends [] u = tt
Unmatched-retain_recvs q sends (r ∷ rs) u = elim (Bool-cases (q r)) [
  | inl b ↦ rw (b, retain) (u.0, Unmatched-retain_recvs q sends rs u.1)
  | inr b ↦ rw (b, retain) (Unmatched-retain_recvs q sends rs u.1)
]

-- Purging a process leaves no send and receive that are meant for each other, where there were none.
pub purge-Unmatched :
    (pid : ℕ) (s : IpcState)
    → Unmatched s.sends s.recvs
    → Unmatched (purge_process pid s).ipc.sends (purge_process pid s).ipc.recvs
unfolding purge_process
purge-Unmatched pid s u =
    Unmatched-retain_sends _ _ _
      (Unmatched-retain_sends _ _ _ (Unmatched-retain_recvs _ _ _ (Unmatched-retain_recvs _ _ _ u)))

-- Sending keeps every send and receive that wait unmatched, also when the sender is refused.
pub send-Unmatched :
    (t : ProcessTable) (tid pid slot : ℕ) (msg : Msg) (s : IpcState)
    → Unmatched s.sends s.recvs
    → let s' = (send t tid pid slot msg s).ipc in Unmatched s'.sends s'.recvs
unfolding send match_recv
send-Unmatched t tid pid slot msg s u = go (as_proc (cap_target t pid slot)) refl
  where
    Kept : Type 0
    Kept = Unmatched (send t tid pid slot msg s).ipc.sends (send t tid pid slot msg s).ipc.recvs

    taken :
        (p : PendingRecv → Bool) (r : PendingRecv) (rest : List PendingRecv)
        → IsFirst p s.recvs r rest
        → Unmatched s.sends rest
    taken p r rest f =
        subst (λ l. Unmatched s.sends l) (sym f.left)
          (Unmatched-drop_recv s.sends f.before r f.after
            (subst (λ l. Unmatched s.sends l) f.split u))

    any_case :
        (dst : ℕ) (o : Option (PendingRecv × List PendingRecv))
        → as_proc (cap_target t pid slot) ≡ ok dst
        → take_first (waits_for dst pid) s.recvs ≡ none
        → take_first (waits_for dst ipc_accept_any) s.recvs ≡ o
        → Kept
    any_case dst none e f g =
        rw (e, f, g, send)
          (Unmatched-push_send s.sends s.recvs
            (record { sender_tid = tid; sender_pid = pid; dst_pid = dst; msg = msg }) u
            (take_first-none (waits_for dst pid) s.recvs f))
    any_case dst (some x) e f g =
        rw (e, f, g, send)
          (taken (waits_for dst ipc_accept_any) x.0 x.1
            (take_first-some (waits_for dst ipc_accept_any) s.recvs x.0 x.1 g))

    named_case :
        (dst : ℕ) (o : Option (PendingRecv × List PendingRecv))
        → as_proc (cap_target t pid slot) ≡ ok dst
        → take_first (waits_for dst pid) s.recvs ≡ o
        → Kept
    named_case dst none e f =
        any_case dst (take_first (waits_for dst ipc_accept_any) s.recvs) e f refl
    named_case dst (some x) e f =
        rw (e, f, send)
          (taken (waits_for dst pid) x.0 x.1
            (take_first-some (waits_for dst pid) s.recvs x.0 x.1 f))

    go : (o : Result ℕ ℕ) → as_proc (cap_target t pid slot) ≡ o → Kept
    go (err c) e = rw (e, send) u
    go (ok dst) e = named_case dst (take_first (waits_for dst pid) s.recvs) e refl

-- Receiving keeps every send and receive that wait unmatched, also when it is refused.
pub recv-Unmatched :
    (t : ProcessTable) (tid pid slot : ℕ) (s : IpcState)
    → Unmatched s.sends s.recvs
    → let s' = (recv t tid pid slot s).ipc in Unmatched s'.sends s'.recvs
unfolding recv
recv-Unmatched t tid pid slot s u = go (source_of (cap_target t pid slot)) refl
  where
    Kept : Type 0
    Kept = Unmatched (recv t tid pid slot s).ipc.sends (recv t tid pid slot s).ipc.recvs

    taken :
        (src : ℕ) (o : Option (PendingSend × List PendingSend))
        → source_of (cap_target t pid slot) ≡ ok src
        → take_first (comes_from src pid) s.sends ≡ o
        → Kept
    taken src none e f =
        rw (e, f, recv)
          (Unmatched-push_recv s.sends s.recvs
            (record { recver_tid = tid; recver_pid = pid; src_pid = src }) u
            (take_first-none (comes_from src pid) s.sends f))
    taken src (some x) e f =
        let first = take_first-some (comes_from src pid) s.sends x.0 x.1 f in
        rw (e, f, recv)
          (subst (λ l. Unmatched l s.recvs) (sym first.left)
            (Unmatched-drop_send first.before x.0 first.after s.recvs
              (subst (λ l. Unmatched l s.recvs) first.split u)))

    go : (o : Result ℕ ℕ) → source_of (cap_target t pid slot) ≡ o → Kept
    go (err c) e = rw (e, recv) u
    go (ok src) e = taken src (take_first (comes_from src pid) s.sends) e refl

-- The queues that the kernel reaches from empty ones, by any processes with any capabilities.
pub data Reaches : IpcState → Type 0 where
  empty : Reaches (record { sends = []; recvs = [] })
  sends :
      {s : IpcState} (t : ProcessTable) (tid pid slot : ℕ) (msg : Msg)
      → Reaches s
      → Reaches (send t tid pid slot msg s).ipc
  recvs :
      {s : IpcState} (t : ProcessTable) (tid pid slot : ℕ)
      → Reaches s
      → Reaches (recv t tid pid slot s).ipc
  purges : {s : IpcState} (pid : ℕ) → Reaches s → Reaches (purge_process pid s).ipc

-- In the IPC queues that the kernel reaches from empty ones by sends, receives and purges, no
-- waiting receive names a process that has a message waiting for it.
pub no_missed_pair : {s : IpcState} → Reaches s → Unmatched s.sends s.recvs
no_missed_pair empty = tt
no_missed_pair (sends {s} t tid pid slot msg r) =
    send-Unmatched t tid pid slot msg s (no_missed_pair r)
no_missed_pair (recvs {s} t tid pid slot r) = recv-Unmatched t tid pid slot s (no_missed_pair r)
no_missed_pair (purges {s} pid r) = purge-Unmatched pid s (no_missed_pair r)
