-- ===== src/Lifecycle.antt =====
-- The operations of kernel/src/process.rs that reach into the registries: creating a process, revoking
-- a capability of any kind, and destroying a process.
use ignium.Services.{unregister_all_locked}
use ignium.Shm.{shm_revoke}
use ignium.Device.{release_all}
use ignium.Kernel.{Kernel, on_store}
use ignium.Memory.{Memory}
use ignium.Base.{
  ℕ, Option, none, some, List, [], ◌∷◌, ok, err, leb, ◌>>=◌, ◌>>◌, if◌then◌else◌, Op, fail_if,
  reading,
}
use ignium.Pages.{revoke}
use ignium.Process.{
  find, insert, retire, Cap, shm, page, max_processes, CapError, live_count, shm_not_found,
  clear_cap, proc, max_caps, page_not_found, invalid_slot, cap_target,
}

-- The indices of `MAX_CAPS` slots, in the order of the array.
abbrev pub cap_slots : List ℕ
cap_slots = 0 ∷ 1 ∷ 2 ∷ 3 ∷ 4 ∷ 5 ∷ 6 ∷ 7 ∷ []

abbrev push_shm : Option Cap → List ℕ → List ℕ
push_shm (some (shm id)) ids = id ∷ ids
push_shm _ ids = ids

abbrev push_page : Option Cap → List ℕ → List ℕ
push_page (some (page id)) ids = id ∷ ids
push_page _ ids = ids

unfoldable pub shm_ids : (ℕ → Option Cap) → List ℕ → List ℕ
shm_ids caps [] = []
shm_ids caps (slot ∷ slots) = push_shm (caps slot) (shm_ids caps slots)

unfoldable pub page_ids : (ℕ → Option Cap) → List ℕ → List ℕ
page_ids caps [] = []
page_ids caps (slot ∷ slots) = push_page (caps slot) (page_ids caps slots)

module _ {mem : Memory} where
  unfoldable pub create : Kernel mem → Option ℕ × Kernel mem
  create k =
      if leb max_processes (live_count k.procs)
      then (none, k)
      else let r = on_store mem.create_user_root k in
        elim r.0 [
          | none ↦ (none, r.1)
          | some root ↦ let s = insert r.1.procs root in (some s.0, record r.1 { procs = s.1 })
        ]

  clear : ℕ → ℕ → Op (Kernel mem) CapError (Unit {0})
  clear pid slot k = let r = clear_cap k.procs pid slot in (r.0, record k { procs = r.1 })

  -- The match on the kind of the capability.
  revoke_kind : ℕ → ℕ → Cap → Op (Kernel mem) CapError (Unit {0})
  unfolding clear
  revoke_kind pid slot (shm id) k =
      let r = shm_revoke id k in if r.0 then (ok tt, r.1) else (err shm_not_found, r.1)
  revoke_kind pid slot (proc p) k = clear pid slot k
  revoke_kind pid slot (page id) k =
      let r = revoke id k in if r.0 then clear pid slot r.1 else (err page_not_found, r.1)

  unfoldable pub cap_revoke : ℕ → ℕ → Op (Kernel mem) CapError (Unit {0})
  unfolding revoke_kind
  cap_revoke pid slot = do
    fail_if (leb max_caps slot) invalid_slot
    cap ← reading (λ k. cap_target k.procs pid slot)
    revoke_kind pid slot cap

  unfoldable pub revoke_shms : List ℕ → Kernel mem → Kernel mem
  revoke_shms [] k = k
  revoke_shms (id ∷ ids) k = revoke_shms ids (shm_revoke id k).1

  unfoldable pub revoke_pages : List ℕ → Kernel mem → Kernel mem
  revoke_pages [] k = k
  revoke_pages (id ∷ ids) k = revoke_pages ids (revoke id k).1

  -- The second half of `destroy`: the slot is made invalid, and the address space is given back.
  unfoldable pub bury : ℕ → Kernel mem → Kernel mem
  bury pid k =
      let r = retire k.procs pid in
      elim r.0 [
        | none ↦ k
        | some root ↦ record k {
          procs = r.1;
          devices = release_all k.devices pid;
          services = unregister_all_locked k.services pid;
          store = mem.destroy_root root k.store;
        }
      ]

  unfoldable pub destroy : ℕ → Kernel mem → Kernel mem
  unfolding revoke_shms revoke_pages bury shm_ids page_ids
  destroy pid k = elim (find k.procs.slots pid) [
    | none ↦ k
    | some p ↦
        bury pid
          (revoke_pages (page_ids p.caps cap_slots) (revoke_shms (shm_ids p.caps cap_slots) k))
  ]
