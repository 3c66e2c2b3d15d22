-- ===== src/Syscall.antt =====
-- The dispatch of system calls (kernel/src/syscall.rs: `handle`): the number is read from a7, the
-- arguments from a0 on, and the result is written to a0 of the trap frame. The calling process, its
-- thread and the tick count are arguments.
pub mod Frame
pub mod Invariant
use ignium.Abi.{sys_err_enosys}
use ignium.Pages.{mem_grant, mem_map}
use ignium.Process.{cap_duplicate}
use ignium.Lifecycle.{cap_revoke}
use ignium.Shm.{mmap_share}
use ignium.Memory.{Memory}
use ignium.Base.{
  ℕ, zero, suc, ◌+◌, ◌-◌, ◌*◌, ◌≤◌, ◌<◌, ◌≡◌, ◌≢◌, refl, Bool, true, false, ◌&&◌, ◌||◌, Option,
  none, some, List, [], ◌∷◌, ◌++◌, ◌⊎◌, inl, inr, arith, Result, ok, err, ◌==◌, ltb, leb, ◌>>=◌,
  ◌>>◌, if◌then◌else◌, length, get_elem?, set, update,
}
use ignium.Ipc.{
  IpcState, SchedCall, Msg, Outcome, SendBlock, RecvBlock, send_done, send_no_peer, recv_done,
  recv_no_peer, send, recv,
}
use ignium.Services.{register_service, connect}
use ignium.Device.{map as map_device}
use ignium.Kernel.{Kernel, cap_result}

-- The numbers of the calls; any other is unknown.
pub data Call : Type 0 where
  exit get_ticks ipc_send ipc_recv shm_map cap_revokes cap_dup : Call
  service_register service_connect map_devices mem_grants mem_maps unknown : Call

unfoldable pub call_of : ℕ → Call
call_of a7 =
    if a7 == 1
    then exit
    else if a7 == 2
    then get_ticks
    else if a7 == 3
    then ipc_send
    else if a7 == 4
    then ipc_recv
    else if a7 == 5
    then shm_map
    else if a7 == 6
    then cap_revokes
    else if a7 == 7
    then cap_dup
    else if a7 == 10
    then service_register
    else if a7 == 11
    then service_connect
    else if a7 == 12
    then map_devices
    else if a7 == 13
    then mem_grants
    else if a7 == 14
    then mem_maps
    else unknown

-- The places of the registers in the frame.
abbrev pub gpr_a0 : ℕ
gpr_a0 = 9

abbrev pub gpr_a7 : ℕ
gpr_a7 = 16

abbrev pub frame_sepc : ℕ
frame_sepc = 33

-- What the caller of `handle` does next: end the thread, return to it, or leave it waiting (the
-- source calls `block_user_from_trap` and returns).
pub data Next : Type 0 where
  exits resumes blocks : Next

pub record Machine (mem : Memory) : Type 0 where
  pub kernel : Kernel mem
  pub ipc : IpcState
  pub calls : List SchedCall
  pub frame : ℕ → ℕ

-- The result in a0, and the program counter past the instruction.
unfoldable pub reply : ℕ → (ℕ → ℕ) → ℕ → ℕ
reply code f = update (update f gpr_a0 code) frame_sepc (f frame_sepc + 4)

unfoldable pub write_msg : Msg → (ℕ → ℕ) → ℕ → ℕ
write_msg (w0, w1, w2, w3, w4) f =
    update (update (update (update (update f 10 w0) 11 w1) 12 w2) 13 w3) 14 w4

abbrev pub read_msg : (ℕ → ℕ) → Msg
read_msg f = (f 10, f 11, f 12, f 13, f 14)

abbrev pub code_of : Result (Unit {0}) ℕ → ℕ
code_of (ok u) = 0
code_of (err e) = e

abbrev pub value_of : Result ℕ ℕ → ℕ
value_of (ok v) = v
value_of (err e) = e

module _ {mem : Memory} where
  -- An operation of the kernel ran and left its result.
  unfoldable pub answer : ℕ → Kernel mem → Machine mem → Next × Machine mem
  unfolding reply
  answer code k m = (resumes, record m { kernel = k; frame = reply code m.frame })

  unfoldable pub after_send : Outcome (Result SendBlock ℕ) → Machine mem → Next × Machine mem
  unfolding reply
  after_send o m =
      let m' = record m { ipc = o.ipc; calls = m.calls ++ o.calls } in
      elim o.result [
        | ok send_done ↦ (resumes, record m' { frame = reply 0 m.frame })
        | ok send_no_peer ↦ (blocks, m')
        | err code ↦ (resumes, record m' { frame = reply code m.frame })
      ]

  unfoldable pub after_recv : Outcome (Result RecvBlock ℕ) → Machine mem → Next × Machine mem
  unfolding reply write_msg
  after_recv o m =
      let m' = record m { ipc = o.ipc; calls = m.calls ++ o.calls } in
      elim o.result [
        | ok (recv_done msg) ↦ (resumes, record m' { frame = reply 0 (write_msg msg m.frame) })
        | ok recv_no_peer ↦ (blocks, m')
        | err code ↦ (resumes, record m' { frame = reply code m.frame })
      ]

  unfoldable pub perform : ℕ → ℕ → ℕ → Call → Machine mem → Next × Machine mem
  unfolding answer after_send after_recv
  perform pid tid ticks exit m = (exits, m)
  perform pid tid ticks get_ticks m = answer ticks m.kernel m
  perform pid tid ticks ipc_send m =
      after_send (send m.kernel.procs tid pid (m.frame 9) (read_msg m.frame) m.ipc) m
  perform pid tid ticks ipc_recv m = after_recv (recv m.kernel.procs tid pid (m.frame 9) m.ipc) m
  perform pid tid ticks shm_map m =
      let r = mmap_share pid (m.frame 9) (m.frame 10) (m.frame 11) m.kernel in
      answer (value_of r.0) r.1 m
  perform pid tid ticks cap_revokes m =
      let r = cap_revoke pid (m.frame 9) m.kernel in answer (code_of (cap_result r.0)) r.1 m
  perform pid tid ticks cap_dup m =
      let r = cap_duplicate m.kernel.procs pid (m.frame 9) (m.frame 10) in
      answer (code_of (cap_result r.0)) (record m.kernel { procs = r.1 }) m
  perform pid tid ticks service_register m =
      let r = register_service pid (m.frame 9) m.kernel in answer (code_of r.0) r.1 m
  perform pid tid ticks service_connect m =
      let r = connect pid (m.frame 9) (m.frame 10) (m.frame 11) m.kernel in
      answer (code_of r.0) r.1 m
  perform pid tid ticks map_devices m =
      let r = map_device pid (m.frame 9) (m.frame 10) m.kernel in answer (code_of r.0) r.1 m
  perform pid tid ticks mem_grants m =
      let r = mem_grant pid (m.frame 9) (m.frame 10) (m.frame 11) m.kernel in
      answer (code_of r.0) r.1 m
  perform pid tid ticks mem_maps m =
      let r = mem_map pid (m.frame 9) (m.frame 10) m.kernel in answer (code_of r.0) r.1 m
  perform pid tid ticks unknown m = answer sys_err_enosys m.kernel m

  unfoldable pub handle : ℕ → ℕ → ℕ → Machine mem → Next × Machine mem
  unfolding perform
  handle pid tid ticks m = perform pid tid ticks (call_of (m.frame gpr_a7)) m
