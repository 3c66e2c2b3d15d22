-- ===== src/Ownership/Registries.antt =====
-- The system calls on shared memory, services and devices (kernel/src/shm.rs, services.rs, device.rs)
-- neither touch the page registry nor give a page capability.
use ignium.Process.{find as find_process}
use ignium.Device.{map as map_device}
use ignium.Services.{register_service, connect, give}
use ignium.Device.{claim, device_flags}
use ignium.Ownership.Changes.{write_slot-NoNewPages}
use ignium.Abi.{sys_err_enomem, sys_err_einval, sys_err_eexist}
use ignium.Ownership.Quiet.{
  Always, Quiet, Quiet-else, Quiet-trans, Quiet-refl, >>=-Always, fail_if-Always, Quiet-procs,
  reading-Always, if-Quiet, >>-Always, return-Always,
}
use ignium.Kernel.{Kernel, SharedPage, on_procs, try_or, on_store, Claim}
use ignium.Process.{
  grant_cap, grant_shm_cap, clear_cap, Cap, shm, page, proc, write_slot, pid_root, Process,
  CapError,
}
use ignium.Memory.{Memory}
use ignium.Base.{
  ℕ, ◌≡◌, ◌≢◌, refl, Bool, Option, none, some, arith, Result, ok, err, ◌==◌, if◌then◌else◌, update,
  not,
}
use ignium.Process.Table.{write_slot-IsValid}
use ignium.Shm.{
  find, insert, retire, alloc_zeroed, register, undo_map, mmap_share, unmap_root, release_owner,
  shm_revoke, undo_page, grant_both, shared_entry,
}

module _ {mem : Memory} where
  write-Quiet :
      (k : Kernel mem) (pid slot : ℕ) (value : Option Cap)
      → ((id : ℕ) → value ≢ some (page id))
      → Quiet k (record k { procs = (write_slot k.procs pid slot value).1 })
  write-Quiet k pid slot value h =
      Quiet-procs k _ (write_slot-NoNewPages k.procs pid slot value h)
        (write_slot-IsValid k.procs pid slot value) refl

  pub clear-Quiet :
      (k : Kernel mem) (pid slot : ℕ)
      → Quiet k (record k { procs = (clear_cap k.procs pid slot).1 })
  unfolding clear_cap
  clear-Quiet k pid slot = write-Quiet k pid slot none (λ id e. ground arith)

  grant_cap-Quiet :
      (k : Kernel mem) (pid slot target : ℕ)
      → Quiet k (record k { procs = (grant_cap k.procs pid slot target).1 })
  unfolding grant_cap
  grant_cap-Quiet k pid slot target =
      write-Quiet k pid slot (some (proc target)) (λ id e. ground arith)

  grant_shm_cap-Quiet :
      (k : Kernel mem) (pid slot id : ℕ)
      → Quiet k (record k { procs = (grant_shm_cap k.procs pid slot id).1 })
  unfolding grant_shm_cap
  grant_shm_cap-Quiet k pid slot id = write-Quiet k pid slot (some (shm id)) (λ j e. ground arith)

  unmap_root-Quiet : (root : Option ℕ) (k : Kernel mem) → Quiet k (unmap_root root k)
  unfolding unmap_root
  unmap_root-Quiet none k = Quiet-refl k
  unmap_root-Quiet (some root) k = Quiet-else k _ refl refl

  release_owner-Quiet : (pid slot : ℕ) (k : Kernel mem) → Quiet k (release_owner pid slot k)
  unfolding release_owner
  release_owner-Quiet pid slot k =
      Quiet-trans (unmap_root-Quiet (pid_root k.procs pid) k)
        (clear-Quiet (unmap_root (pid_root k.procs pid) k) pid slot)

  pub shm_revoke-Quiet : (id : ℕ) (k : Kernel mem) → Quiet k (shm_revoke id k).1
  unfolding shm_revoke
  shm_revoke-Quiet id k = go (find k.shms.shms id) refl
    where
      go : (o : Option SharedPage) → find k.shms.shms id ≡ o → Quiet k (shm_revoke id k).1
      go none e = rw (e, shm_revoke) (Quiet-refl k)
      go (some s) e =
          let k1 : Kernel mem = record k { shms = retire k.shms id s } in
          rw (e, shm_revoke)
            (Quiet-trans
              (Quiet-trans
                (Quiet-trans (Quiet-else k k1 refl refl)
                  (release_owner-Quiet s.owner_a s.slot_a k1))
                (release_owner-Quiet s.owner_b s.slot_b (release_owner s.owner_a s.slot_a k1)))
              (Quiet-else _ _ refl refl))

  try_or-Always :
      (m : mem.Store → Bool × mem.Store) (undo : Kernel mem → Kernel mem) (e : ℕ)
      → ((k : Kernel mem) → Quiet k (undo k))
      → Always (try_or m undo e)
  unfolding try_or
  try_or-Always m undo e h = record {
    run = λ k.
        let done = on_store m k in
        let q : Quiet k done.1 = Quiet-else k _ refl refl in
        if-Quiet k done.0 (ok tt, done.1) (err e, undo done.1) q (Quiet-trans q (h done.1));
  }

  alloc_zeroed-Always : Always (alloc_zeroed {mem = mem})
  unfolding alloc_zeroed
  alloc_zeroed-Always = record { run = λ k. Quiet-else k _ refl refl }

  undo_page-Quiet : (a : ℕ) (k : Kernel mem) → Quiet k (undo_page a k)
  unfolding undo_page
  undo_page-Quiet a k = Quiet-else k _ refl refl

  undo_map-Quiet : (root : ℕ) (k : Kernel mem) → Quiet k (undo_map root k)
  unfolding undo_map
  undo_map-Quiet root k = Quiet-else k _ refl refl

  register-Always :
      (root_a root_b a : ℕ) (entry : ℕ → SharedPage)
      → Always (register {mem = mem} root_a root_b a entry)
  unfolding register undo_page undo_map
  register-Always root_a root_b a entry = record { run = λ k. go k (insert k.shms entry).0 refl }
    where
      go :
          (k : Kernel mem) (o : Option ℕ)
          → (insert k.shms entry).0 ≡ o
          → Quiet k (register root_a root_b a entry k).1
      go k none e = rw (e, register) (Quiet-else k _ refl refl)
      go k (some id) e = rw (e, register) (Quiet-else k _ refl refl)

  grant_both-Always :
      (caller a_slot peer b_slot id : ℕ)
      → Always (grant_both {mem = mem} caller a_slot peer b_slot id)
  unfolding grant_both
  grant_both-Always caller a_slot peer b_slot id = record {
    run = λ k.
        let a = on_procs (λ t. grant_shm_cap t caller a_slot id) k in
        let b = on_procs (λ t. grant_shm_cap t peer b_slot id) a.1 in
        let qa : Quiet k a.1 = grant_shm_cap-Quiet k caller a_slot id in
        let qb : Quiet k b.1 = Quiet-trans qa (grant_shm_cap-Quiet a.1 peer b_slot id) in
        if-Quiet k a.0 (if b.0 then (ok tt, b.1) else (err sys_err_enomem, (shm_revoke id b.1).1))
          (err sys_err_enomem, (shm_revoke id a.1).1)
          (if-Quiet k b.0 (ok tt, b.1) (err sys_err_enomem, (shm_revoke id b.1).1) qb
            (Quiet-trans qb (shm_revoke-Quiet id b.1)))
          (Quiet-trans qa (shm_revoke-Quiet id a.1));
  }

  pub mmap_share-Always :
      (caller a_slot b_slot len : ℕ) → Always (mmap_share {mem = mem} caller a_slot b_slot len)
  unfolding mmap_share
  mmap_share-Always caller a_slot b_slot len = >>-Always (fail_if-Always _ _) (
      >>=-Always (reading-Always _) λ peer. >>-Always (fail_if-Always _ _) (
        >>=-Always (reading-Always _) λ root_b. >>=-Always (reading-Always _) λ root_a.
          >>=-Always alloc_zeroed-Always λ a. >>-Always (try_or-Always _ _ _ (undo_page-Quiet a)) (
            >>-Always
              (try_or-Always _ _ _
                (λ k. Quiet-trans (undo_map-Quiet root_a k) (undo_page-Quiet a _)))
              (>>=-Always
                (register-Always root_a root_b a (shared_entry a caller a_slot peer b_slot))
                λ id.
                  >>-Always (grant_both-Always caller a_slot peer b_slot id) (return-Always id)))))

  pub register_service-Always : (pid id : ℕ) → Always (register_service {mem = mem} pid id)
  unfolding register_service
  register_service-Always pid id = record { run = λ k. go k (find_process k.procs.slots pid) refl }
    where
      go :
          (k : Kernel mem) (o : Option Process)
          → find_process k.procs.slots pid ≡ o
          → Quiet k (register_service pid id k).1
      go k none e = rw (e, register_service) (Quiet-refl k)
      go k (some p) e = rw (e, register_service) (Quiet-else k _ refl refl)

  give-Always :
      (pid slot target : ℕ) (undo : Kernel mem → Kernel mem)
      → ((k : Kernel mem) → Quiet k (undo k))
      → Always (give pid slot target undo)
  unfolding give
  give-Always pid slot target undo h = record {
    run = λ k. go k (grant_cap k.procs pid slot target).0 refl;
  }
    where
      go :
          (k : Kernel mem) (r : Result (Unit {0}) CapError)
          → (grant_cap k.procs pid slot target).0 ≡ r
          → Quiet k (give pid slot target undo k).1
      go k (ok u) e = rw (e, give) (grant_cap-Quiet k pid slot target)
      go k (err x) e = rw (e, give) (h k)

  pub connect-Always :
      (caller id client_slot server_slot : ℕ)
      → Always (connect {mem = mem} caller id client_slot server_slot)
  unfolding connect
  connect-Always caller id client_slot server_slot = >>=-Always (reading-Always _) λ server.
      >>-Always (fail_if-Always _ _) (
        >>-Always (fail_if-Always _ _) (
          >>-Always (give-Always caller client_slot server (λ k. k) Quiet-refl)
            (give-Always server server_slot caller _ (λ k. clear-Quiet k caller client_slot))))

  claim-Quiet :
      (caller dev_id va root pa : ℕ) (c : Option Claim) (k : Kernel mem)
      → Quiet k (claim caller dev_id va root pa c k).1
  unfolding claim
  claim-Quiet caller dev_id va root pa none k =
      let r = on_store (mem.map_device_page root va pa device_flags) k in
      if-Quiet k r.0
        (
          ok tt,
          record r.1 {
            devices = update r.1.devices dev_id (some (record { owner = caller; va = va }));
          },
        )
        (err sys_err_einval, r.1) (Quiet-else k _ refl refl) (Quiet-else k _ refl refl)
  claim-Quiet caller dev_id va root pa (some c) k =
      let inner : Result (Unit {0}) ℕ × Kernel mem =
        if not (c.va == va) then (err sys_err_einval, k) else (ok tt, k) in
      if-Quiet k (not (c.owner == caller)) (err sys_err_eexist, k) inner (Quiet-refl k)
        (if-Quiet k (not (c.va == va)) (err sys_err_einval, k) (ok tt, k) (Quiet-refl k)
          (Quiet-refl k))

  pub map-Always : (caller dev_id va : ℕ) → Always (map_device {mem = mem} caller dev_id va)
  unfolding map_device
  map-Always caller dev_id va = >>=-Always (reading-Always _) λ pa. >>-Always (fail_if-Always _ _) (
      >>=-Always (reading-Always _)
        λ root. record { run = λ k. claim-Quiet caller dev_id va root pa (k.devices dev_id) k })
