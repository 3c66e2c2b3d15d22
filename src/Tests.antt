-- ===== src/Tests.antt =====
-- A small machine for the tests: its store counts the pages handed out, and every operation of the
-- allocator and of the page tables succeeds (a stand-in for kernel/src/mem.rs and kernel/src/mmu.rs).
mod Ownership
mod Operations
mod Ipc
mod Elf
mod Fdt
mod Heap
mod Locks
mod Buddy
mod Syscall
mod Sched
mod Mmu
use ignium.Memory.{Memory}
use ignium.Base.{
  ℕ, zero, suc, ◌+◌, ◌-◌, ◌*◌, ◌≤◌, ◌<◌, ◌≡◌, ◌≢◌, refl, Bool, true, false, ◌&&◌, ◌||◌, Option,
  none, some, List, [], ◌∷◌, ◌++◌, ◌⊎◌, inl, inr, arith, Result, ok, err, ◌==◌, ltb, leb, ◌>>=◌,
  ◌>>◌, if◌then◌else◌, length, get_elem?, set, update,
}

abbrev pub counter : Memory
counter = record {
  Store = ℕ;
  alloc_page = λ n. (some (2164260864 + n * 4096), n + 1);
  alloc_page_zeroed = λ n. (some (2164260864 + n * 4096), n + 1);
  free_pages = λ a n. (true, n);
  map_user_page = λ root va pa flags n. (true, n);
  map_device_page = λ root va pa flags n. (true, n);
  unmap_4k = λ root va n. (true, n);
  create_user_root = λ n. (some (2164260864 + n * 4096), n + 1);
  destroy_root = λ root n. n;
}
