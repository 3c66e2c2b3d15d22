-- ===== src/Tests/Ipc.antt =====
-- Two connected processes exchange messages (as the boot tests of kernel/src/tests.rs do).
use ignium.Ipc.Rendezvous.{send-recv, send_delivers}
use ignium.Ipc.Queues.{IsFirst, Never}
use ignium.Ipc.Purge.{send_names, recv_names, gone, bereft_recv, bereft_send, purge_process_lem}
use ignium.Ipc.Listening.{listener, message, listen_misses, listen_hears}
use ignium.Kernel.{as_proc}
use ignium.Base.{
  ℕ, ◌≡◌, refl, none, some, List, [], ◌∷◌, ◌++◌, ◌⊎◌, arith, ok, err, update, not, map,
}
use ignium.Process.{proc, no_caps, find, cap_target, ProcessTable, not_found}
use ignium.Ipc.{
  send, recv, purge_process, take_first, match_recv, retain, recv_done, PendingRecv, recv_no_peer,
  Msg, IpcState, send_done, source_of, ipc_wake_with_msg, waits_for, ipc_accept_any,
}
use ignium.Ipc.Waiting.{sends, recvs, empty, Unmatched, no_missed_pair}

-- Process 0 holds a capability for process 1 in slot 1, and process 1 one for process 0 in slot 0.
abbrev pair : ProcessTable
pair = record {
  slots =
      record { id = 0; root = 100; caps = update no_caps 1 (some (proc 1)) }
      ∷ record { id = 1; root = 200; caps = update no_caps 0 (some (proc 0)) }
      ∷ [];
  free = [];
}

abbrev hello : Msg
hello = (1, 2, 3, 4, 5)

abbrev idle : IpcState
idle = record { sends = []; recvs = [] }

client_to : as_proc (cap_target pair 0 1) ≡ ok 1
unfolding cap_target find
client_to = refl

server_from : source_of (cap_target pair 1 0) ≡ ok 0
unfolding cap_target find
server_from = refl

server_listens : cap_target pair 1 5 ≡ err not_found
unfolding cap_target find
server_listens = refl

send-recv_example :
    recv pair 8 1 0 (send pair 7 0 1 hello idle).ipc
    ≡ record { result = ok (recv_done hello); ipc = idle; calls = ipc_wake_with_msg 7 none ∷ [] }
unfolding match_recv take_first
send-recv_example = send-recv pair 7 0 1 1 8 0 hello idle client_to server_from refl tt

listen_misses_example : recv pair 8 1 5 (send pair 7 0 1 hello idle).ipc ≡ record {
  result = ok recv_no_peer;
  ipc = record { sends = message 7 0 1 hello ∷ []; recvs = listener 8 1 ∷ [] };
  calls = [];
}
unfolding match_recv take_first
listen_misses_example =
    listen_misses pair 7 0 1 1 8 5 hello idle client_to server_listens refl tt (omega arith)

listen_hears_example :
    send pair 7 0 1 hello (recv pair 8 1 5 idle).ipc
    ≡ record { result = ok send_done; ipc = idle; calls = ipc_wake_with_msg 8 (some hello) ∷ [] }
listen_hears_example =
    listen_hears pair 7 0 1 1 8 5 hello idle client_to server_listens tt tt tt (omega arith)

-- Two receivers of process 1: the one that accepts any came first.
abbrev queued : IpcState
queued = record {
  sends = [];
  recvs = listener 8 1 ∷ record { recver_tid = 9; recver_pid = 1; src_pid = 0 } ∷ [];
}

queued_done : (send pair 7 0 1 hello queued).result ≡ ok send_done
unfolding send match_recv take_first cap_target find
queued_done = refl

send_delivers_example :
    (dst : ℕ) × (r : PendingRecv) × (rest : List PendingRecv) × (as_proc (cap_target pair 0 1)
      ≡ ok dst)
    × ((send pair 7 0 1 hello queued).ipc ≡ record { sends = []; recvs = rest })
    × ((send pair 7 0 1 hello queued).calls ≡ ipc_wake_with_msg r.recver_tid (some hello) ∷ [])
    × (IsFirst (waits_for dst 0) queued.recvs r rest
        ⊎ (Never (waits_for dst 0) queued.recvs
            × IsFirst (waits_for dst ipc_accept_any) queued.recvs r rest))
send_delivers_example = send_delivers pair 7 0 1 hello queued queued_done

purge_process_lem_example :
    ((purge_process 1 queued).ipc.sends ≡ retain (λ x. not (send_names 1 x)) [])
    × ((purge_process 1 queued).ipc.recvs ≡ retain (λ r. not (recv_names 1 r)) queued.recvs)
    × ((purge_process 1 queued).calls
        ≡ map (λ r. gone r.recver_tid) (retain (bereft_recv 1) queued.recvs)
          ++ map (λ x. gone x.sender_tid) (retain (bereft_send 1) []))
purge_process_lem_example = purge_process_lem 1 queued

no_missed_pair_example :
    let s = (recv pair 8 1 5 (send pair 7 0 1 hello idle).ipc).ipc in Unmatched s.sends s.recvs
no_missed_pair_example = no_missed_pair (recvs pair 8 1 5 (sends pair 7 0 1 hello empty))
