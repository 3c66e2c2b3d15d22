-- ===== src/Pages.antt =====
-- Physical pages held as capabilities (kernel/src/pages.rs). The flush of the TLB after a revocation
-- changes no state of the model.
pub mod Registry
use ignium.Process.{
  Cap, CapError, pid_root, clear_cap, grant_typed_cap, page, invalid_slot, not_found, wrong_type,
  shm_not_found, page_not_found, cap_target, max_caps,
}
use ignium.Abi.{
  usize_max, sys_err_enoent, sys_err_eexist, sys_err_einval, sys_err_enomem, page_size,
  user_va_limit, sys_err_eacces,
}
use ignium.Memory.{Memory}
use ignium.Kernel.{
  PageTable, PageRecord, Kernel, K, on_store, on_procs, ignoring, as_page, as_proc, try_or,
}
use ignium.Base.{
  ℕ, zero, suc, ◌+◌, ◌-◌, ◌*◌, ◌≤◌, ◌<◌, ◌≡◌, ◌≢◌, refl, Bool, true, false, ◌&&◌, ◌||◌, Option,
  none, some, List, [], ◌∷◌, ◌++◌, ◌⊎◌, inl, inr, arith, Result, ok, err, ◌==◌, ltb, leb,
  if◌then◌else◌, length, get_elem?, set, update, is_some, ◌>>=◌, ◌>>◌, reading, fail_if, not, ◌%◌,
  or_err,
}

abbrev pub max_pages : ℕ
max_pages = 64

abbrev keep_if : Bool → PageRecord → Option PageRecord
keep_if true r = some r
keep_if false r = none

abbrev with_id : ℕ → Option PageRecord → Option PageRecord
with_id id none = none
with_id id (some r) = keep_if (r.id == id) r

-- `t.pages.get(id).filter(|r| r.id == id)`
unfoldable pub find : List PageRecord → ℕ → Option PageRecord
find pages id = with_id id (get_elem? pages id)

unfoldable pub put : PageTable → ℕ → PageRecord → PageTable
put t id r = record t { pages = set t.pages id r }

-- The locked part of `alloc`: `none` is a full table. The test on the table's length stands before the
-- queue of freed indices is looked at.
unfoldable pub insert : PageTable → ℕ → ℕ → Option ℕ × PageTable
insert t paddr owner = if leb max_pages (length t.pages) then (none, t) else elim t.free [
  | [] ↦
      let idx = length t.pages in
      (
        some idx,
        record t {
          pages = t.pages ++ record { id = idx; paddr = paddr; owner = owner; map_va = none } ∷ [];
        },
      )
  | idx ∷ rest ↦ (
    some idx,
    record {
      pages = set t.pages idx (record { id = idx; paddr = paddr; owner = owner; map_va = none });
      free = rest;
    },
  )
]

-- The locked part of `revoke`: the record leaves the table, and its index is queued.
unfoldable pub retire : PageTable → ℕ → PageRecord → PageTable
retire t id r = record {
  pages = set t.pages id (record r { id = usize_max; map_va = none });
  free = t.free ++ id ∷ [];
}

unfoldable pub is_mapped : PageTable → ℕ → Bool
is_mapped t id = elim (find t.pages id) [ none ↦ false | some r ↦ is_some r.map_va ]

unfoldable pub paddr : PageTable → ℕ → Option ℕ
paddr t id = elim (find t.pages id) [ none ↦ none | some r ↦ some r.paddr ]

-- `true` is `Ok(())`.
unfoldable pub map : PageTable → ℕ → ℕ → Bool × PageTable
unfolding put
map t id va = elim (find t.pages id) [
  | none ↦ (false, t)
  | some r ↦
      if is_some r.map_va then (false, t) else (true, put t id (record r { map_va = some va }))
]

-- The check that the receiving slot is there and empty.
abbrev pub vacant : Result Cap CapError → Result (Unit {0}) ℕ
vacant (ok c) = err sys_err_eexist
vacant (err invalid_slot) = err sys_err_einval
vacant (err not_found) = ok tt
vacant (err wrong_type) = ok tt
vacant (err shm_not_found) = ok tt
vacant (err page_not_found) = ok tt

module _ {mem : Memory} where
  -- `if let Some(va) = va { if let Some(root) = pid_root(pid) { unmap_4k(root, va).ok(); } }`
  unfoldable pub unmap_of : Option ℕ → Option ℕ → Kernel mem → Kernel mem
  unmap_of none root k = k
  unmap_of (some va) none k = k
  unmap_of (some va) (some root) k = ignoring (mem.unmap_4k root va) k

  unfoldable pub alloc : ℕ → K mem ℕ
  unfolding insert
  alloc owner k =
      let r = on_store mem.alloc_page k in
      elim r.0 [
        | none ↦ (err sys_err_enomem, r.1)
        | some paddr ↦
            let s = insert r.1.pages paddr owner in
            elim s.0 [
              | none ↦ (err sys_err_enomem, ignoring (mem.free_pages paddr) r.1)
              | some idx ↦ (ok idx, record r.1 { pages = s.1 })
            ]
      ]

  unfoldable pub revoke : ℕ → Kernel mem → Bool × Kernel mem
  unfolding retire unmap_of
  revoke id k = elim (find k.pages.pages id) [
    | none ↦ (false, k)
    | some r ↦
        on_store (mem.free_pages r.paddr)
          (unmap_of r.map_va (pid_root k.procs r.owner) (record k { pages = retire k.pages id r }))
  ]

  unfoldable pub grant : ℕ → ℕ → Kernel mem → Bool × Kernel mem
  unfolding put unmap_of
  grant id to_pid k = elim (find k.pages.pages id) [
    | none ↦ (false, k)
    | some r ↦ (
      true,
      unmap_of r.map_va (pid_root k.procs r.owner)
          (record k { pages = put k.pages id (record r { map_va = none; owner = to_pid }) }),
    )
  ]

  -- `grant(id, peer).map_err(|_| ENOENT)?`
  unfoldable pub move_owner : ℕ → ℕ → K mem (Unit {0})
  unfolding grant
  move_owner id peer k =
      let r = grant id peer k in if r.0 then (ok tt, r.1) else (err sys_err_enoent, r.1)

  -- The receiving slot is written; a failure gives the page back to its owner.
  unfoldable pub deliver : ℕ → ℕ → ℕ → ℕ → K mem (Unit {0})
  unfolding grant
  deliver caller id peer dst_slot k =
      let r = on_procs (λ t. grant_typed_cap t peer dst_slot (page id)) k in
      if r.0 then (ok tt, r.1) else (err sys_err_eexist, (grant id caller r.1).1)

  -- `let _ = clear_cap(caller, slot);`
  unfoldable pub drop_slot : ℕ → ℕ → K mem (Unit {0})
  drop_slot caller slot k = (ok tt, record k { procs = (clear_cap k.procs caller slot).1 })

  unfoldable pub mem_grant : ℕ → ℕ → ℕ → ℕ → K mem (Unit {0})
  mem_grant caller src_slot peer_slot dst_slot = do
    id ← reading (λ k. as_page (cap_target k.procs caller src_slot))
    peer ← reading (λ k. as_proc (cap_target k.procs caller peer_slot))
    reading (λ k. elim (pid_root k.procs peer) [ none ↦ err sys_err_eacces | some r ↦ ok tt ])
    fail_if (leb max_caps dst_slot) sys_err_einval
    reading (λ k. vacant (cap_target k.procs peer dst_slot))
    move_owner id peer
    deliver caller id peer dst_slot
    drop_slot caller src_slot

  -- `map(id, va)` after the page table entry is written; a failure takes the entry back.
  unfoldable pub record_map : ℕ → ℕ → ℕ → K mem (Unit {0})
  unfolding map
  record_map root id va k =
      let r = map k.pages id va in
      if r.0
      then (ok tt, record k { pages = r.1 })
      else (err sys_err_eexist, ignoring (mem.unmap_4k root va) k)

  unfoldable pub mem_map : ℕ → ℕ → ℕ → K mem (Unit {0})
  mem_map caller slot va = do
    fail_if (not (va % page_size == 0) || leb user_va_limit va) sys_err_einval
    id ← reading (λ k. as_page (cap_target k.procs caller slot))
    reading (λ k. if is_mapped k.pages id then err sys_err_eexist else ok tt)
    pa ← reading (λ k. or_err (paddr k.pages id) sys_err_enoent)
    root ← reading (λ k. or_err (pid_root k.procs caller) sys_err_eacces)
    try_or (mem.map_user_page root va pa 0xC7) (λ k. k) sys_err_einval
    record_map root id va
