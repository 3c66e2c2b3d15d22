-- ===== src/Ownership/Reach.antt =====
-- All that the kernel does with capabilities, as a step relation: the system calls on capabilities,
-- shared memory, services, devices and pages (kernel/src/syscall.rs hands each to the operation named
-- here), the creation and the destruction of processes, and the boot code's issue of pages.
use ignium.Ownership.Grant.{mem_grant-Inv, mem_map-Inv}
use ignium.Pages.{mem_grant, mem_map, alloc}
use ignium.Services.{register_service, connect}
use ignium.Ownership.Revoke.{cap_revoke-Inv, cap_duplicate-Inv, alloc-Inv, issue-Inv}
use ignium.Ownership.Registries.{
  mmap_share-Always, register_service-Always, connect-Always, map-Always,
}
use ignium.Ownership.Invariant.{Inv-Quiet}
use ignium.Shm.{mmap_share}
use ignium.Ownership.Destroy.{create-Inv, destroy-Inv}
use ignium.Lifecycle.{create, destroy, cap_revoke}
use ignium.Ownership.{Inv, page_owner}
use ignium.Process.Caps.{cap_at}
use ignium.Kernel.{Kernel}
use ignium.Memory.{Memory}
use ignium.Base.{ℕ, ◌≡◌, ◌≢◌, none, some, [], arith, err}
use ignium.Device.{map as map_device}
use ignium.Process.{find, page, page_not_found, cap_duplicate, grant_typed_cap}

-- One operation, by any process and with any arguments.
pub data Step {mem : Memory} (k : Kernel mem) : Kernel mem → Type 0 where
  creates : Step k (create k).1
  destroys : (pid : ℕ) → Step k (destroy pid k)
  shares : (caller a_slot b_slot len : ℕ) → Step k (mmap_share caller a_slot b_slot len k).1
  revokes :
      (pid slot : ℕ)
      → (cap_revoke pid slot k).0 ≢ err page_not_found
      → Step k (cap_revoke pid slot k).1
  duplicates :
      (pid from to : ℕ) → Step k (record k { procs = (cap_duplicate k.procs pid from to).1 })
  registers : (pid id : ℕ) → Step k (register_service pid id k).1
  connects :
      (caller id client_slot server_slot : ℕ)
      → Step k (connect caller id client_slot server_slot k).1
  claims : (caller dev_id va : ℕ) → Step k (map_device caller dev_id va k).1
  moves :
      (caller src_slot peer_slot dst_slot : ℕ)
      → Step k (mem_grant caller src_slot peer_slot dst_slot k).1
  maps : (caller slot va : ℕ) → Step k (mem_map caller slot va k).1
  allocates : (owner : ℕ) → Step k (alloc owner k).1
  issues :
      (owner slot id : ℕ)
      → page_owner k.pages id ≡ some owner
      → ((p s : ℕ) → cap_at k.procs p s ≢ some (page id))
      → Step k (record k { procs = (grant_typed_cap k.procs owner slot (page id)).1 })

pub data Reach {mem : Memory} (k : Kernel mem) : Kernel mem → Type 0 where
  here : Reach k k
  next : {l n : Kernel mem} → Reach k l → Step l n → Reach k n

-- The state before the first process: empty tables over any store.
unfoldable pub boot : {mem : Memory} → ℕ → mem.Store → Kernel mem
boot uart store = record {
  procs = record { slots = []; free = [] };
  shms = record { shms = []; free = [] };
  pages = record { pages = []; free = [] };
  services = λ id. none;
  devices = λ id. none;
  uart_base = uart;
  store = store;
}

module _ {mem : Memory} where
  pub Step-Inv : {k l : Kernel mem} → Step k l → Inv k → Inv l
  Step-Inv {k} creates v = create-Inv k v
  Step-Inv {k} (destroys pid) v = destroy-Inv pid k v
  Step-Inv {k} (shares caller a_slot b_slot len) v =
      Inv-Quiet ((mmap_share-Always caller a_slot b_slot len).run k) v
  Step-Inv {k} (revokes pid slot h) v = cap_revoke-Inv pid slot k v h
  Step-Inv {k} (duplicates pid from to) v = cap_duplicate-Inv k pid from to v
  Step-Inv {k} (registers pid id) v = Inv-Quiet ((register_service-Always pid id).run k) v
  Step-Inv {k} (connects caller id client_slot server_slot) v =
      Inv-Quiet ((connect-Always caller id client_slot server_slot).run k) v
  Step-Inv {k} (claims caller dev_id va) v = Inv-Quiet ((map-Always caller dev_id va).run k) v
  Step-Inv {k} (moves caller src_slot peer_slot dst_slot) v =
      mem_grant-Inv caller src_slot peer_slot dst_slot k v
  Step-Inv {k} (maps caller slot va) v = mem_map-Inv caller slot va k v
  Step-Inv {k} (allocates owner) v = alloc-Inv owner k v
  Step-Inv {k} (issues owner slot id own unheld) v = issue-Inv k owner slot id v own unheld

  -- The empty system satisfies the invariant.
  boot-Inv : (uart : ℕ) (store : mem.Store) → Inv {mem = mem} (boot uart store)
  unfolding boot cap_at find
  boot-Inv uart store = record {
    exclusive = record {
      owned = λ p s id h. ground (arith, h);
      single = λ p s u id h g. ground (arith, h);
    };
    registered = record {
      ids = λ i r h. ground arith;
      in_range = λ i h. ground arith;
      distinct = tt;
      small = omega arith;
    };
    table = record {
      ids = λ i r h. ground arith;
      in_range = λ i h. ground arith;
      distinct = tt;
      small = omega arith;
    };
  }

  -- Every state that the kernel reaches from the empty system satisfies the invariant.
  pub Reach-Inv :
      (uart : ℕ) (store : mem.Store) {k : Kernel mem} → Reach (boot uart store) k → Inv k
  Reach-Inv uart store here = boot-Inv uart store
  Reach-Inv uart store (next r s) = Step-Inv s (Reach-Inv uart store r)

  -- In every state that the kernel reaches from the empty system by its operations (a
  -- revocation that reports PageNotFound excepted), a page is held by one slot of one process
  -- at most, and the process that holds it is the owner that the page registry names.
  pub page_held_once :
      (uart : ℕ) (store : mem.Store) (k : Kernel mem) (p q s u id : ℕ)
      → Reach (boot uart store) k
      → cap_at k.procs p s ≡ some (page id)
      → cap_at k.procs q u ≡ some (page id)
      → (p ≡ q) × (s ≡ u) × (page_owner k.pages id ≡ some p)
  page_held_once uart store k p q s u id r h g =
      let v = Reach-Inv uart store r in
      let e : p ≡ q = ground (arith, v.exclusive.owned p s id h, v.exclusive.owned q u id g) in
      (e, v.exclusive.single p s u id h (rw e g), v.exclusive.owned p s id h)
