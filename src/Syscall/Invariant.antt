-- ===== src/Syscall/Invariant.antt =====
-- Every system call (kernel/src/syscall.rs) is one of the steps of the kernel.
use ignium.Lifecycle.{cap_revoke}
use ignium.Ownership.{Inv}
use ignium.Memory.{Memory}
use ignium.Base.{ℕ, ◌≡◌, ◌≢◌, refl, Result, ok, err}
use ignium.Syscall.{
  handle, perform, call_of, Machine, exit, get_ticks, ipc_send, ipc_recv, shm_map, cap_revokes,
  cap_dup, service_register, service_connect, map_devices, mem_grants, mem_maps, unknown, Call,
  answer, after_send, after_recv, read_msg,
}
use ignium.Ipc.{
  Outcome, SendBlock, RecvBlock, send_done, send_no_peer, recv_done, recv_no_peer, send, recv,
}
use ignium.Ownership.Reach.{
  Step-Inv, shares, revokes, duplicates, registers, connects, claims, moves, maps,
}
use ignium.Process.{page_not_found}

module _ {mem : Memory} where
  after_send_kernel :
      (o : Outcome (Result SendBlock ℕ)) (m : Machine mem) → (after_send o m).1.kernel ≡ m.kernel
  unfolding after_send
  after_send_kernel o m = go o.result refl
    where
      go : (r : Result SendBlock ℕ) → o.result ≡ r → (after_send o m).1.kernel ≡ m.kernel
      go (ok send_done) e = rw (e, after_send) refl
      go (ok send_no_peer) e = rw (e, after_send) refl
      go (err code) e = rw (e, after_send) refl

  after_recv_kernel :
      (o : Outcome (Result RecvBlock ℕ)) (m : Machine mem) → (after_recv o m).1.kernel ≡ m.kernel
  unfolding after_recv
  after_recv_kernel o m = go o.result refl
    where
      go : (r : Result RecvBlock ℕ) → o.result ≡ r → (after_recv o m).1.kernel ≡ m.kernel
      go (ok (recv_done msg)) e = rw (e, after_recv) refl
      go (ok recv_no_peer) e = rw (e, after_recv) refl
      go (err code) e = rw (e, after_recv) refl

  perform-Inv :
      (pid tid ticks : ℕ) (c : Call) (m : Machine mem)
      → Inv m.kernel
      → (cap_revoke pid (m.frame 9) m.kernel).0 ≢ err page_not_found
      → Inv (perform pid tid ticks c m).1.kernel
  unfolding perform answer
  perform-Inv pid tid ticks exit m v h = v
  perform-Inv pid tid ticks get_ticks m v h = v
  perform-Inv pid tid ticks ipc_send m v h =
      rw (after_send_kernel (send m.kernel.procs tid pid (m.frame 9) (read_msg m.frame) m.ipc) m) v
  perform-Inv pid tid ticks ipc_recv m v h =
      rw (after_recv_kernel (recv m.kernel.procs tid pid (m.frame 9) m.ipc) m) v
  perform-Inv pid tid ticks shm_map m v h =
      Step-Inv (shares pid (m.frame 9) (m.frame 10) (m.frame 11)) v
  perform-Inv pid tid ticks cap_revokes m v h = Step-Inv (revokes pid (m.frame 9) h) v
  perform-Inv pid tid ticks cap_dup m v h = Step-Inv (duplicates pid (m.frame 9) (m.frame 10)) v
  perform-Inv pid tid ticks service_register m v h = Step-Inv (registers pid (m.frame 9)) v
  perform-Inv pid tid ticks service_connect m v h =
      Step-Inv (connects pid (m.frame 9) (m.frame 10) (m.frame 11)) v
  perform-Inv pid tid ticks map_devices m v h = Step-Inv (claims pid (m.frame 9) (m.frame 10)) v
  perform-Inv pid tid ticks mem_grants m v h =
      Step-Inv (moves pid (m.frame 9) (m.frame 10) (m.frame 11)) v
  perform-Inv pid tid ticks mem_maps m v h = Step-Inv (maps pid (m.frame 9) (m.frame 10)) v
  perform-Inv pid tid ticks unknown m v h = v

  -- Whatever is in its registers, a system call keeps the invariant of the kernel, where
  -- revoking the capability in the slot that a0 names would not report that its page is not
  -- there.
  pub handle-Inv :
      (pid tid ticks : ℕ) (m : Machine mem)
      → Inv m.kernel
      → (cap_revoke pid (m.frame 9) m.kernel).0 ≢ err page_not_found
      → Inv (handle pid tid ticks m).1.kernel
  unfolding handle
  handle-Inv pid tid ticks m v h = perform-Inv pid tid ticks (call_of (m.frame 16)) m v h
