-- ===== src/Ipc.antt =====
-- Synchronous IPC (kernel/src/ipc.rs): the two queues of waiting threads. The identity of the current
-- thread is an argument, and the calls that an operation makes to the scheduler are recorded in order
-- (kernel/src/sched.rs: `ipc_wake_with_msg`, `ipc_wake_with_err`, `donate_on_block`).
pub mod Queues
pub mod Rendezvous
pub mod Waiting
pub mod Listening
pub mod Purge
use ignium.Abi.{usize_max, sys_err_enoent}
use ignium.Base.{
  ℕ, zero, suc, ◌+◌, ◌-◌, ◌*◌, ◌≤◌, ◌<◌, ◌≡◌, ◌≢◌, refl, Bool, true, false, ◌&&◌, ◌||◌, Option,
  none, some, List, [], ◌∷◌, ◌++◌, ◌⊎◌, inl, inr, arith, Result, ok, err, ◌==◌, ltb, leb, ◌>>=◌,
  ◌>>◌, if◌then◌else◌, length, get_elem?, set, update, not,
}
use ignium.Process.{
  ProcessTable, Cap, CapError, proc, shm, page, not_found, invalid_slot, wrong_type, shm_not_found,
  page_not_found, cap_target,
}
use ignium.Kernel.{as_proc}

abbrev pub ipc_accept_any : ℕ
ipc_accept_any = usize_max

-- `[usize; MSG_WORDS]`
abbrev pub Msg : Type 0
Msg = ℕ × ℕ × ℕ × ℕ × ℕ

pub record PendingSend : Type 0 where
  pub sender_tid : ℕ
  pub sender_pid : ℕ
  pub dst_pid : ℕ
  pub msg : Msg

pub record PendingRecv : Type 0 where
  pub recver_tid : ℕ
  pub recver_pid : ℕ
  pub src_pid : ℕ

pub record IpcState : Type 0 where
  pub sends : List PendingSend
  pub recvs : List PendingRecv

pub data SchedCall : Type 0 where
  ipc_wake_with_msg : ℕ → Option Msg → SchedCall
  ipc_wake_with_err : ℕ → ℕ → SchedCall
  donate_on_block : ℕ → ℕ → SchedCall

pub data SendBlock : Type 0 where
  send_done send_no_peer : SendBlock

pub data RecvBlock : Type 0 where
  recv_done : Msg → RecvBlock
  recv_no_peer : RecvBlock

-- What an operation returns, the queues it leaves, and its calls to the scheduler.
pub record Outcome (A : Type 0) : Type 0 where
  pub result : A
  pub ipc : IpcState
  pub calls : List SchedCall

-- `position(p)` and `remove` at the position found: the element and what is left.
unfoldable pub take_first : {A : Type 0} → (A → Bool) → List A → Option (A × List A)
take_first p [] = none
take_first p (x ∷ xs) =
    let rest = take_first p xs in
    if p x then some (x, xs) else elim rest [ none ↦ none | some r ↦ some (r.0, x ∷ r.1) ]

abbrev pub waits_for : ℕ → ℕ → PendingRecv → Bool
waits_for dst src r = r.recver_pid == dst && r.src_pid == src

abbrev pub comes_from : ℕ → ℕ → PendingSend → Bool
comes_from src dst s = s.sender_pid == src && s.dst_pid == dst

-- A receiver that names the sender is looked for first, then one that accepts any.
unfoldable pub match_recv : List PendingRecv → ℕ → ℕ → Option (PendingRecv × List PendingRecv)
unfolding take_first
match_recv recvs dst pid = elim (take_first (waits_for dst pid) recvs) [
  | none ↦ take_first (waits_for dst ipc_accept_any) recvs
  | some r ↦ some r
]

unfoldable pub send : ProcessTable → ℕ → ℕ → ℕ → Msg → IpcState → Outcome (Result SendBlock ℕ)
unfolding match_recv
send t tid pid slot msg s = elim (as_proc (cap_target t pid slot)) [
  | err e ↦ record { result = err e; ipc = s; calls = [] }
  | ok dst ↦ elim (match_recv s.recvs dst pid) [
    | some r ↦ record {
      result = ok send_done;
      ipc = record s { recvs = r.1 };
      calls = ipc_wake_with_msg r.0.recver_tid (some msg) ∷ [];
    }
    | none ↦ record {
      result = ok send_no_peer;
      ipc = record s {
        sends =
            s.sends ++ record { sender_tid = tid; sender_pid = pid; dst_pid = dst; msg = msg } ∷ [];
      };
      calls = donate_on_block tid dst ∷ [];
    }
  ]
]

-- The process that a receive names: an empty slot accepts any.
abbrev pub source_of : Result Cap CapError → Result ℕ ℕ
source_of (err not_found) = ok ipc_accept_any
source_of (err invalid_slot) = as_proc (err invalid_slot)
source_of (err wrong_type) = as_proc (err wrong_type)
source_of (err shm_not_found) = as_proc (err shm_not_found)
source_of (err page_not_found) = as_proc (err page_not_found)
source_of (ok c) = as_proc (ok c)

unfoldable pub recv : ProcessTable → ℕ → ℕ → ℕ → IpcState → Outcome (Result RecvBlock ℕ)
unfolding take_first
recv t tid pid slot s = elim (source_of (cap_target t pid slot)) [
  | err e ↦ record { result = err e; ipc = s; calls = [] }
  | ok src ↦ elim (take_first (comes_from src pid) s.sends) [
    | some p ↦ record {
      result = ok (recv_done p.0.msg);
      ipc = record s { sends = p.1 };
      calls = ipc_wake_with_msg p.0.sender_tid none ∷ [];
    }
    | none ↦ record {
      result = ok recv_no_peer;
      ipc = record s {
        recvs = s.recvs ++ record { recver_tid = tid; recver_pid = pid; src_pid = src } ∷ [];
      };
      calls = if src == ipc_accept_any then [] else donate_on_block tid src ∷ [];
    }
  ]
]

-- `retain`
unfoldable pub retain : {A : Type 0} → (A → Bool) → List A → List A
retain p [] = []
retain p (x ∷ xs) = let rest = retain p xs in if p x then x ∷ rest else rest

-- The receivers of other processes that wait for a message from `pid` are told that it is dead.
unfoldable pub wake_recvs : ℕ → List PendingRecv → List SchedCall
wake_recvs pid [] = []
wake_recvs pid (r ∷ rs) =
    let rest = wake_recvs pid rs in
    if r.src_pid == pid && not (r.recver_pid == pid)
    then ipc_wake_with_err r.recver_tid sys_err_enoent ∷ rest
    else rest

unfoldable pub wake_sends : ℕ → List PendingSend → List SchedCall
wake_sends pid [] = []
wake_sends pid (s ∷ ss) =
    let rest = wake_sends pid ss in
    if s.dst_pid == pid && not (s.sender_pid == pid)
    then ipc_wake_with_err s.sender_tid sys_err_enoent ∷ rest
    else rest

unfoldable pub purge_process : ℕ → IpcState → Outcome (Unit {0})
unfolding retain wake_recvs wake_sends
purge_process pid s = record {
  result = tt;
  ipc = record {
    sends = retain (λ x. not (x.sender_pid == pid)) (retain (λ x. not (x.dst_pid == pid)) s.sends);
    recvs = retain (λ r. not (r.recver_pid == pid)) (retain (λ r. not (r.src_pid == pid)) s.recvs);
  };
  calls = wake_recvs pid s.recvs ++ wake_sends pid s.sends;
}
