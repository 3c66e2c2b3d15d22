-- ===== src/Tests/Syscall.antt =====
-- Process 1 of the boot scenario hands the page in its slot 3 back to process 0.
use ignium.Ownership.Reach.{Reach-Inv}
use ignium.Tests.{counter}
use ignium.Ownership.{Inv}
use ignium.Base.{ℕ, [], update}
use ignium.Tests.Ownership.{moved, moved-Reach}
use ignium.Tests.Operations.{revoked}
use ignium.Syscall.Frame.{FrameKept, handle-FrameKept}
use ignium.Syscall.Invariant.{handle-Inv}
use ignium.Syscall.{handle, Machine}

-- a7 = 13 (`mem_grant`), a0 = 3, a1 = 0, a2 = 2.
abbrev registers : ℕ → ℕ
registers = update (update (update (update (λ i. 0) 16 13) 9 3) 10 0) 11 2

abbrev machine : Machine counter
machine = record {
  kernel = moved;
  ipc = record { sends = []; recvs = [] };
  calls = [];
  frame = registers;
}

handle-FrameKept_example : let r = handle 1 7 0 machine in FrameKept r.0 registers r.1.frame
handle-FrameKept_example = handle-FrameKept 1 7 0 machine

handle-Inv_example : Inv (handle 1 7 0 machine).1.kernel
handle-Inv_example = handle-Inv 1 7 0 machine (Reach-Inv 0x10000000 0 moved-Reach) revoked
