-- ===== src/Tests/Operations.antt =====
-- The invariant's preservation on the states of the boot scenario, and a full page table.
use ignium.Services.{connect, register_service, give, lookup, register_locked}
use ignium.Process.Caps.{cap_at}
use ignium.Ownership.Exhaustion.{alloc_exhausted}
use ignium.Abi.{sys_err_enomem}
use ignium.Ownership.Destroy.{destroy-Inv}
use ignium.Ownership.Reach.{Reach-Inv, boot}
use ignium.Tests.{counter}
use ignium.Process.Table.{IsValid, insert-IsValid, insert-isolated}
use ignium.Kernel.{PageRecord, Kernel}
use ignium.Lifecycle.{
  cap_revoke, destroy, revoke_pages, create, bury, revoke_shms, shm_ids, page_ids,
}
use ignium.Ownership.{Inv}
use ignium.Base.{
  ℕ, zero, suc, ◌*◌, ◌<◌, ◌≡◌, ◌≢◌, refl, none, some, List, [], ◌∷◌, arith, ok, err, ◌>>=◌, ◌>>◌,
  reading, fail_if, contains, is_some, true,
}
use ignium.Tests.Ownership.{moved, moved-Reach}
use ignium.Pages.{
  alloc, mem_grant, find as find_page, insert as insert_page, put as put_page,
  retire as retire_page, revoke, move_owner, deliver, drop_slot, grant, unmap_of,
}
use ignium.Process.{
  put, find as find_process, insert as insert_process, retire as retire_process, page_not_found,
  pid_root, fresh, live_count, grant_typed_cap, grant_cap, clear_cap, write_slot, cap_target,
  max_processes,
}

Reach-Inv_example : Inv moved
Reach-Inv_example = Reach-Inv 0x10000000 0 moved-Reach

destroy-Inv_example : Inv (destroy 1 moved)
destroy-Inv_example = destroy-Inv 1 moved (Reach-Inv 0x10000000 0 moved-Reach)

revoke_done : (cap_revoke 1 3 moved).0 ≡ ok tt
unfolding cap_revoke revoke retire_page alloc create boot find_process insert_process fresh
    live_count insert_page mem_grant connect register_service give grant_typed_cap grant_cap
    clear_cap write_slot put cap_target cap_at lookup register_locked reading fail_if ◌>>◌ ◌>>=◌
    move_owner deliver drop_slot grant unmap_of find_page put_page pid_root
revoke_done = refl

pub revoked : (cap_revoke 1 3 moved).0 ≢ err page_not_found
revoked h = cc (h, revoke_done)

below : live_count moved.procs < max_processes
unfolding alloc create boot find_process insert_process fresh live_count insert_page mem_grant
    connect register_service give grant_typed_cap grant_cap clear_cap write_slot put cap_target
    cap_at lookup register_locked reading fail_if ◌>>◌ ◌>>=◌ move_owner deliver drop_slot grant
    unmap_of find_page put_page pid_root
below = omega arith

insert-IsValid_example : IsValid (insert_process moved.procs 77).1
insert-IsValid_example =
    insert-IsValid moved.procs 77 (Reach-Inv 0x10000000 0 moved-Reach).table below

insert-isolated_example :
    (find_process moved.procs.slots (insert_process moved.procs 77).0 ≡ none)
    × (pid_root (insert_process moved.procs 77).1 (insert_process moved.procs 77).0 ≡ some 77)
    × (cap_at (insert_process moved.procs 77).1 (insert_process moved.procs 77).0 1 ≡ none)
    × ((insert_process moved.procs 77).0 ≢ 1
        → find_process (insert_process moved.procs 77).1.slots 1 ≡ find_process moved.procs.slots 1)
insert-isolated_example =
    insert-isolated moved.procs 77 1 (Reach-Inv 0x10000000 0 moved-Reach).table

-- `n` records of process 1 from index `i` on.
records : ℕ → ℕ → List PageRecord
records i zero = []
records i (suc n) =
    record { id = i; paddr = i * 4096; owner = 1; map_va = none } ∷ records (suc i) n

abbrev full : Kernel counter
unfolding records
full = record moved { pages = record { pages = records 0 64; free = [] } }

alloc_exhausted_example :
    ((alloc 1 (destroy 1 (revoke_pages (3 ∷ 5 ∷ []) full))).0 ≡ err sys_err_enomem)
    × ((id : ℕ)
        → contains (3 ∷ 5 ∷ []) id ≡ true
        → is_some (find_page full.pages.pages id) ≡ true
        → contains (destroy 1 (revoke_pages (3 ∷ 5 ∷ []) full)).pages.free id ≡ true)
unfolding full
alloc_exhausted_example = alloc_exhausted full (3 ∷ 5 ∷ []) 1 1 (omega arith)

-- The two pages that are revoked and the one that the process holds are queued.
full_queue : (destroy 1 (revoke_pages (3 ∷ 5 ∷ []) full)).pages.free ≡ 3 ∷ 5 ∷ 0 ∷ []
unfolding full records revoke_pages destroy bury revoke_shms shm_ids page_ids retire_process revoke
    retire_page alloc create boot find_process insert_process fresh live_count insert_page mem_grant
    connect register_service give grant_typed_cap grant_cap clear_cap write_slot put cap_target
    cap_at lookup register_locked reading fail_if ◌>>◌ ◌>>=◌ move_owner deliver drop_slot grant
    unmap_of find_page put_page pid_root
full_queue = refl
