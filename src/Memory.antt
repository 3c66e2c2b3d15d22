-- ===== src/Memory.antt =====
-- What the registries call of the page allocator (kernel/src/mem.rs) and of the page tables
-- (kernel/src/mmu.rs): operations on a store, which holds the physical memory. `true` is `Ok(())`.
use ignium.Base.{ℕ, Bool, Option}

pub record Memory : Type 1 where
  pub Store : Type 0
  -- `mem::alloc_pages(0)` and `mem::alloc_pages_zeroed(0)`.
  pub alloc_page : Store → Option ℕ × Store
  pub alloc_page_zeroed : Store → Option ℕ × Store
  pub free_pages : ℕ → Store → Bool × Store
  -- Root table, virtual address, physical address, flags.
  pub map_user_page : ℕ → ℕ → ℕ → ℕ → Store → Bool × Store
  pub map_device_page : ℕ → ℕ → ℕ → ℕ → Store → Bool × Store
  pub unmap_4k : ℕ → ℕ → Store → Bool × Store
  pub create_user_root : Store → Option ℕ × Store
  pub destroy_root : ℕ → Store → Store
