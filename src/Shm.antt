-- ===== src/Shm.antt =====
-- Shared memory: one physical page in two address spaces (kernel/src/shm.rs). The flushes of the TLBs
-- after a revocation change no state of the model.
use ignium.Process.{pid_root, grant_shm_cap, clear_cap, cap_target, max_caps}
use ignium.Abi.{usize_max, sys_err_enomem, sys_err_einval, sys_err_eacces}
use ignium.Memory.{Memory}
use ignium.Kernel.{SharedPage, ShmTable, Kernel, K, on_procs, ignoring, on_store, as_proc, try_or}
use ignium.Base.{
  ℕ, Bool, true, false, Option, none, some, List, [], ◌∷◌, ◌++◌, ok, err, ◌==◌, leb, ◌>>=◌, ◌>>◌,
  if◌then◌else◌, length, get_elem?, set, fail_if, or_err, not, reading, return,
}

abbrev pub shm_va : ℕ
shm_va = 0x50000000

abbrev pub shm_len : ℕ
shm_len = 4096

abbrev pub max_shms : ℕ
max_shms = 16

abbrev map_flags : ℕ
map_flags = 0xC7

abbrev keep_if : Bool → SharedPage → Option SharedPage
keep_if true s = some s
keep_if false s = none

abbrev with_id : ℕ → Option SharedPage → Option SharedPage
with_id id none = none
with_id id (some s) = keep_if (s.id == id) s

-- `t.shms.get(id).filter(|s| s.id == id)`
unfoldable pub find : List SharedPage → ℕ → Option SharedPage
find shms id = with_id id (get_elem? shms id)

unfoldable pub shared_entry : ℕ → ℕ → ℕ → ℕ → ℕ → ℕ → SharedPage
shared_entry paddr caller a_slot peer b_slot idx = record {
  id = idx;
  paddr = paddr;
  owner_a = caller;
  slot_a = a_slot;
  owner_b = peer;
  slot_b = b_slot;
}

-- The locked part of `mmap_share`; `entry idx` is the record for the index that is found.
unfoldable pub insert : ShmTable → (ℕ → SharedPage) → Option ℕ × ShmTable
insert t entry = if leb max_shms (length t.shms) then (none, t) else elim t.free [
  | [] ↦ let idx = length t.shms in (some idx, record t { shms = t.shms ++ entry idx ∷ [] })
  | idx ∷ rest ↦ (some idx, record { shms = set t.shms idx (entry idx); free = rest })
]

-- The locked part of `shm_revoke`.
unfoldable pub retire : ShmTable → ℕ → SharedPage → ShmTable
retire t id s = record {
  shms = set t.shms id (record s { id = usize_max });
  free = t.free ++ id ∷ [];
}

unfoldable pub shm_paddr : ShmTable → ℕ → Option ℕ
shm_paddr t id = elim (find t.shms id) [ none ↦ none | some s ↦ some s.paddr ]

module _ {mem : Memory} where
  unfoldable pub unmap_root : Option ℕ → Kernel mem → Kernel mem
  unmap_root none k = k
  unmap_root (some root) k = ignoring (mem.unmap_4k root shm_va) k

  -- One round of the loop over the owners.
  unfoldable pub release_owner : ℕ → ℕ → Kernel mem → Kernel mem
  unfolding unmap_root
  release_owner pid slot k =
      let k' = unmap_root (pid_root k.procs pid) k in
      record k' { procs = (clear_cap k'.procs pid slot).1 }

  -- `true` is `Ok(())`.
  unfoldable pub shm_revoke : ℕ → Kernel mem → Bool × Kernel mem
  unfolding retire release_owner
  shm_revoke id k = elim (find k.shms.shms id) [
    | none ↦ (false, k)
    | some s ↦ on_store (mem.free_pages s.paddr) (
        release_owner s.owner_b s.slot_b
          (release_owner s.owner_a s.slot_a (record k { shms = retire k.shms id s })))
  ]

  -- `mem::free_pages(paddr).ok()`
  unfoldable pub undo_page : ℕ → Kernel mem → Kernel mem
  undo_page paddr k = ignoring (mem.free_pages paddr) k

  unfoldable pub undo_map : ℕ → Kernel mem → Kernel mem
  undo_map root k = ignoring (mem.unmap_4k root shm_va) k

  unfoldable pub alloc_zeroed : K mem ℕ
  alloc_zeroed k = let r = on_store mem.alloc_page_zeroed k in (or_err r.0 sys_err_enomem, r.1)

  unfoldable pub register : ℕ → ℕ → ℕ → (ℕ → SharedPage) → K mem ℕ
  unfolding insert undo_page undo_map
  register root_a root_b paddr entry k =
      let r = insert k.shms entry in
      elim r.0 [
        | none ↦ (err sys_err_enomem, undo_page paddr (undo_map root_b (undo_map root_a k)))
        | some id ↦ (ok id, record k { shms = r.1 })
      ]

  -- Both slots are given `Cap::Shm(id)`; the second only if the first was.
  unfoldable pub grant_both : ℕ → ℕ → ℕ → ℕ → ℕ → K mem (Unit {0})
  unfolding shm_revoke
  grant_both caller a_slot peer b_slot id k =
      let a = on_procs (λ t. grant_shm_cap t caller a_slot id) k in
      let b = on_procs (λ t. grant_shm_cap t peer b_slot id) a.1 in
      if a.0
      then (if b.0 then (ok tt, b.1) else (err sys_err_enomem, (shm_revoke id b.1).1))
      else (err sys_err_enomem, (shm_revoke id a.1).1)

  unfoldable pub mmap_share : ℕ → ℕ → ℕ → ℕ → K mem ℕ
  mmap_share caller a_slot b_slot len = do
    fail_if (not (len == shm_len)) sys_err_einval
    peer ← reading (λ k. as_proc (cap_target k.procs caller a_slot))
    fail_if (leb max_caps b_slot) sys_err_einval
    root_b ← reading (λ k. or_err (pid_root k.procs peer) sys_err_eacces)
    root_a ← reading (λ k. or_err (pid_root k.procs caller) sys_err_eacces)
    paddr ← alloc_zeroed
    try_or (mem.map_user_page root_a shm_va paddr map_flags) (undo_page paddr) sys_err_einval
    try_or (mem.map_user_page root_b shm_va paddr map_flags)
        (λ k. undo_page paddr (undo_map root_a k)) sys_err_einval
    id ← register root_a root_b paddr (shared_entry paddr caller a_slot peer b_slot)
    grant_both caller a_slot peer b_slot id
    return id
