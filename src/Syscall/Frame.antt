-- ===== src/Syscall/Frame.antt =====
-- What a system call does to the trap frame of its caller (kernel/src/syscall.rs).

use ignium.Memory.{Memory}
use ignium.Base.{ℕ, ◌+◌, ◌<◌, ◌≡◌, ◌≢◌, refl, ◌⊎◌, arith, Result, ok, err}
use ignium.Syscall.{
  handle, perform, call_of, Machine, Next, exits, resumes, blocks, exit, get_ticks, ipc_send,
  ipc_recv, shm_map, cap_revokes, cap_dup, service_register, service_connect, map_devices,
  mem_grants, mem_maps, unknown, Call, answer, after_send, after_recv, reply, write_msg, frame_sepc,
}
use ignium.Ipc.{
  Outcome, SendBlock, RecvBlock, send_done, send_no_peer, recv_done, recv_no_peer, Msg,
}

-- A thread that resumes has its program counter four bytes on, and may find a0 to a5 changed; all its
-- other registers are kept. The frame of one that ends or waits is as it was.
abbrev pub FrameKept : Next → (ℕ → ℕ) → (ℕ → ℕ) → Type 0
FrameKept resumes f f' =
    (f' frame_sepc ≡ f frame_sepc + 4)
    × ((i : ℕ) → i ≢ frame_sepc → (i < 9) ⊎ (14 < i) → f' i ≡ f i)
FrameKept exits f f' = (i : ℕ) → f' i ≡ f i
FrameKept blocks f f' = (i : ℕ) → f' i ≡ f i

reply-Kept : (code : ℕ) (f : ℕ → ℕ) → FrameKept resumes f (reply code f)
unfolding reply
reply-Kept code f = (refl, λ i h g. ground (arith, h, g))

reply_msg-Kept : (msg : Msg) (f : ℕ → ℕ) → FrameKept resumes f (reply 0 (write_msg msg f))
unfolding reply write_msg
reply_msg-Kept (w0, w1, w2, w3, w4) f = (ground arith, λ i h g. ground (arith, h, g))

module _ {mem : Memory} where
  abbrev Kept : Machine mem → Next × Machine mem → Type 0
  Kept m r = FrameKept r.0 m.frame r.1.frame

  after_send-Kept : (o : Outcome (Result SendBlock ℕ)) (m : Machine mem) → Kept m (after_send o m)
  unfolding after_send
  after_send-Kept o m = go o.result refl
    where
      go : (r : Result SendBlock ℕ) → o.result ≡ r → Kept m (after_send o m)
      go (ok send_done) e = rw (e, after_send) (reply-Kept 0 m.frame)
      go (ok send_no_peer) e = rw (e, after_send) (λ i. refl)
      go (err code) e = rw (e, after_send) (reply-Kept code m.frame)

  after_recv-Kept : (o : Outcome (Result RecvBlock ℕ)) (m : Machine mem) → Kept m (after_recv o m)
  unfolding after_recv
  after_recv-Kept o m = go o.result refl
    where
      go : (r : Result RecvBlock ℕ) → o.result ≡ r → Kept m (after_recv o m)
      go (ok (recv_done msg)) e = rw (e, after_recv) (reply_msg-Kept msg m.frame)
      go (ok recv_no_peer) e = rw (e, after_recv) (λ i. refl)
      go (err code) e = rw (e, after_recv) (reply-Kept code m.frame)

  perform-Kept :
      (pid tid ticks : ℕ) (c : Call) (m : Machine mem) → Kept m (perform pid tid ticks c m)
  unfolding perform answer
  perform-Kept pid tid ticks exit m = λ i. refl
  perform-Kept pid tid ticks get_ticks m = reply-Kept _ m.frame
  perform-Kept pid tid ticks ipc_send m = after_send-Kept _ m
  perform-Kept pid tid ticks ipc_recv m = after_recv-Kept _ m
  perform-Kept pid tid ticks shm_map m = reply-Kept _ m.frame
  perform-Kept pid tid ticks cap_revokes m = reply-Kept _ m.frame
  perform-Kept pid tid ticks cap_dup m = reply-Kept _ m.frame
  perform-Kept pid tid ticks service_register m = reply-Kept _ m.frame
  perform-Kept pid tid ticks service_connect m = reply-Kept _ m.frame
  perform-Kept pid tid ticks map_devices m = reply-Kept _ m.frame
  perform-Kept pid tid ticks mem_grants m = reply-Kept _ m.frame
  perform-Kept pid tid ticks mem_maps m = reply-Kept _ m.frame
  perform-Kept pid tid ticks unknown m = reply-Kept _ m.frame

  -- A thread that resumes after a system call, known or unknown, has its program counter four
  -- bytes on and all its registers but a0 to a5; the frame of a thread that ends or waits is
  -- as it was.
  pub handle-FrameKept :
      (pid tid ticks : ℕ) (m : Machine mem)
      → let r = handle pid tid ticks m in FrameKept r.0 m.frame r.1.frame
  unfolding handle
  handle-FrameKept pid tid ticks m = perform-Kept pid tid ticks (call_of (m.frame 16)) m
