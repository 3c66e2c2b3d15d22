-- ===== src/Tests/Ownership.antt =====
-- Two processes connect through a service, and a page moves from one to the other (as the boot tests
-- of kernel/src/tests.rs do with the memory service).
use ignium.Ownership.Moved.{HasMoved, mem_grant_moves}
use ignium.Process.Caps.{cap_at}
use ignium.Pages.{
  find as find_page, insert as insert_page, put as put_page, move_owner, deliver, drop_slot, grant,
  unmap_of,
}
use ignium.Pages.{alloc, mem_grant}
use ignium.Lifecycle.{create}
use ignium.Services.{connect, register_service, give, lookup, register_locked}
use ignium.Ownership.Revoke.{alloc_fresh}
use ignium.Tests.{counter}
use ignium.Kernel.{Kernel}
use ignium.Ownership.{page_owner}
use ignium.Ownership.Reach.{
  Reach, next, here, Reach-Inv, connects, boot, creates, registers, allocates, page_held_once,
  moves, issues,
}
use ignium.Base.{ℕ, ◌≡◌, refl, some, ok, ◌>>=◌, ◌>>◌, reading, fail_if}
use ignium.Process.{
  find, insert, grant_typed_cap, page, fresh, live_count, grant_cap, clear_cap, write_slot, put,
  cap_target, pid_root,
}

abbrev pub start : Kernel counter
start = boot 0x10000000 0

abbrev pub two_processes : Kernel counter
two_processes = (create (create start).1).1

abbrev pub with_page : Kernel counter
with_page = (alloc 0 two_processes).1

abbrev issued : Kernel counter
issued = record with_page { procs = (grant_typed_cap with_page.procs 0 0 (page 0)).1 }

abbrev pub connected : Kernel counter
connected = (connect 0 1 1 0 (register_service 1 1 issued).1).1

abbrev pub moved : Kernel counter
moved = (mem_grant 0 0 1 3 connected).1

two_processes-Reach : Reach start two_processes
two_processes-Reach = next (next here creates) creates

alloc_done : (alloc 0 two_processes).0 ≡ ok 0
unfolding alloc create boot find insert fresh live_count insert_page
alloc_done = refl

alloc_fresh_example : page_owner with_page.pages 0 ≡ some 0
alloc_fresh_example =
    (alloc_fresh 0 two_processes {idx = 0} (Reach-Inv 0x10000000 0 two_processes-Reach)
      alloc_done).0

issued-Reach : Reach start issued
issued-Reach =
    let fresh_page =
      alloc_fresh 0 two_processes {idx = 0} (Reach-Inv 0x10000000 0 two_processes-Reach)
        alloc_done in
    next (next two_processes-Reach (allocates 0)) (issues 0 0 0 fresh_page.0 fresh_page.1)

pub connected-Reach : Reach start connected
connected-Reach = next (next issued-Reach (registers 1 1)) (connects 0 1 1 0)

pub moved-Reach : Reach start moved
moved-Reach = next connected-Reach (moves 0 0 1 3)

pub moved_holds : cap_at moved.procs 1 3 ≡ some (page 0)
unfolding alloc create boot find insert fresh live_count insert_page mem_grant connect
    register_service give grant_typed_cap grant_cap clear_cap write_slot put cap_target cap_at
    lookup register_locked reading fail_if ◌>>◌ ◌>>=◌ move_owner deliver drop_slot grant unmap_of
    find_page put_page pid_root
moved_holds = refl

move_done : (mem_grant 0 0 1 3 connected).0 ≡ ok tt
unfolding alloc create boot find insert fresh live_count insert_page mem_grant connect
    register_service give grant_typed_cap grant_cap clear_cap write_slot put cap_target cap_at
    lookup register_locked reading fail_if ◌>>◌ ◌>>=◌ move_owner deliver drop_slot grant unmap_of
    find_page put_page pid_root
move_done = refl

mem_grant_moves_example : HasMoved 0 0 1 3 connected moved
mem_grant_moves_example =
    mem_grant_moves 0 0 1 3 connected (Reach-Inv 0x10000000 0 connected-Reach) move_done

page_held_once_example : (◌≡◌ {A = ℕ} 1 1) × (◌≡◌ {A = ℕ} 3 3) × (page_owner moved.pages 0 ≡ some 1)
page_held_once_example =
    page_held_once 0x10000000 0 moved 1 1 3 3 0 moved-Reach moved_holds moved_holds
