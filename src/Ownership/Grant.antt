-- ===== src/Ownership/Grant.antt =====
-- `mem_grant`, `mem_map` and `alloc` of kernel/src/pages.rs keep the invariant of the capability system.
use ignium.Base.Rules.{after_test, after_reading, after_check}
use ignium.Pages.Registry.{Registered, put-Registered, find-put}
use ignium.Ownership.Space.{Exclusive-shrink}
use ignium.Abi.{sys_err_einval}
use ignium.Ownership.Invariant.{sent-Inv, returned-Inv, slot_in_range}
use ignium.Ownership.Transfers.{find_of_owner, grant-effect, page_of, cap_target-vacant}
use ignium.Process.{page, max_caps, CapError, grant_typed_cap}
use ignium.Process.Caps.{cap_at, grant_typed_cap-err}
use ignium.Ownership.{Inv, page_owner}
use ignium.Kernel.{Kernel, PageRecord, PageTable, try_or}
use ignium.Memory.{Memory}
use ignium.Base.{
  ℕ, ◌≡◌, refl, false, Option, none, some, inl, inr, arith, Result, ok, err, leb, ◌>>=◌, ◌>>◌, Op,
  Bool-cases, is_some,
}
use ignium.Pages.{
  find, put, grant, map, mem_map, record_map, move_owner, deliver, drop_slot, mem_grant,
}

module _ {mem : Memory} (caller src peer dst id : ℕ) (k : Kernel mem) (v : Inv k)
    (held : cap_at k.procs caller src ≡ some (page id)) where
  abbrev pub transfer : Op (Kernel mem) ℕ (Unit {0})
  transfer = move_owner id peer >> (deliver caller id peer dst >> drop_slot caller src)

  -- After the change of owner, whichever way the writing of the slot turns out.
  delivered-Inv :
      (k1 : Kernel mem) (r : PageRecord)
      → find k.pages.pages id ≡ some r
      → k1.procs ≡ k.procs
      → k1.pages ≡ put k.pages id (record r { map_va = none; owner = peer })
      → leb max_caps src ≡ false
      → cap_at k.procs peer dst ≡ none
      → Inv ((deliver caller id peer dst >> drop_slot caller src) k1).1
  unfolding ◌>>◌ ◌>>=◌ deliver drop_slot
  delivered-Inv k1 r found same given small empty =
      go (grant_typed_cap k1.procs peer dst (page id)).0 refl
    where
      go :
          (w : Result (Unit {0}) CapError)
          → (grant_typed_cap k1.procs peer dst (page id)).0 ≡ w
          → Inv ((deliver caller id peer dst >> drop_slot caller src) k1).1
      go (ok u) e =
          rw e (sent-Inv caller src peer dst id k v held k1 r found same given small empty)
      go (err x) e = rw e (
          returned-Inv caller src peer dst id k v held k1 r found same given _
            (grant_typed_cap-err k1.procs peer dst (page id) e) refl)

  pub transfer-Inv : leb max_caps src ≡ false → cap_at k.procs peer dst ≡ none → Inv (transfer k).1
  unfolding ◌>>◌ ◌>>=◌ move_owner
  transfer-Inv small empty =
      let (r, found, own) = find_of_owner k.pages id (v.exclusive.owned caller src id held) in
      let g = grant-effect id peer k r found in
      rw (g.0) (delivered-Inv (grant id peer k).1 r found g.1 g.2 small empty)

map-effect :
    (t : PageTable) (id va : ℕ)
    → Registered t
    → Registered (map t id va).1 × ((q : ℕ) → page_owner (map t id va).1 q ≡ page_owner t q)
unfolding map page_owner
map-effect t id va v = go (find t.pages id) refl
  where
    go :
        (o : Option PageRecord)
        → find t.pages id ≡ o
        → Registered (map t id va).1 × ((q : ℕ) → page_owner (map t id va).1 q ≡ page_owner t q)
    go none e = rw (e, map) (v, λ q. refl)
    go (some r) e = elim (Bool-cases (is_some r.map_va)) [
      | inl b ↦ rw (e, b, map) (v, λ q. refl)
      | inr b ↦
          rw (e, b, map)
            (
              put-Registered t id r (record r { map_va = some va }) e refl v,
              λ q. ground (arith, e, find-put t id q r (record r { map_va = some va }) e refl),
            )
    ]

module _ {mem : Memory} where
  -- Moving a page to another process keeps the invariant of the kernel, on every outcome of
  -- the call.
  pub mem_grant-Inv :
      (caller src_slot peer_slot dst_slot : ℕ) (k : Kernel mem)
      → Inv k
      → Inv (mem_grant caller src_slot peer_slot dst_slot k).1
  unfolding mem_grant
  mem_grant-Inv caller src_slot peer_slot dst_slot k v = after_reading Inv _ _ k v λ id page_held.
      after_reading Inv _ _ k v λ peer connected. after_check Inv _ _ k v λ alive.
        after_test Inv _ _ _ k v λ in_range. after_check Inv _ _ k v λ vacancy.
          transfer-Inv caller src_slot peer dst_slot id k v
            (page_of k.procs caller src_slot page_held)
            (slot_in_range k.procs caller src_slot page_held)
            (cap_target-vacant k.procs peer dst_slot vacancy)

  record_map-Inv : (root id va : ℕ) (k : Kernel mem) → Inv k → Inv (record_map root id va k).1
  unfolding record_map
  record_map-Inv root id va k v = elim (Bool-cases (map k.pages id va).0) [
    | inl b ↦
        rw (b, record_map)
          (record {
            exclusive =
                Exclusive-shrink v.exclusive (λ p s i h. h)
                  (map-effect k.pages id va v.registered).1;
            registered = (map-effect k.pages id va v.registered).0;
            table = v.table;
          })
    | inr b ↦
        rw (b, record_map)
          (record { exclusive = v.exclusive; registered = v.registered; table = v.table })
  ]

  mapped-Inv :
      (root id va pa : ℕ) (k : Kernel mem)
      → Inv k
      → Inv
          ((try_or (mem.map_user_page root va pa 0xC7) (λ l. l) sys_err_einval
              >> record_map root id va)
            k).1
  unfolding ◌>>◌ ◌>>=◌ try_or
  mapped-Inv root id va pa k v = elim (Bool-cases (mem.map_user_page root va pa 0xC7 k.store).0) [
    | inl b ↦ rw b (
        record_map-Inv root id va _
          (record { exclusive = v.exclusive; registered = v.registered; table = v.table }))
    | inr b ↦ rw b (record { exclusive = v.exclusive; registered = v.registered; table = v.table })
  ]

  pub mem_map-Inv : (caller slot va : ℕ) (k : Kernel mem) → Inv k → Inv (mem_map caller slot va k).1
  unfolding mem_map
  mem_map-Inv caller slot va k v = after_test Inv _ _ _ k v λ aligned.
      after_reading Inv _ _ k v λ id held. after_check Inv _ _ k v λ unmapped.
        after_reading Inv _ _ k v
          λ pa known. after_reading Inv _ _ k v λ root alive. mapped-Inv root id va pa k v
