-- ===== src/Ownership/Transfers.antt =====
-- The page operations of kernel/src/pages.rs keep the single-reference rule.
use ignium.Process.Caps.{cap_at}
use ignium.Kernel.{Kernel, PageTable, PageRecord, as_page}
use ignium.Memory.{Memory}
use ignium.Process.{cap_target, ProcessTable, Cap, pid_root, page}
use ignium.Ownership.{page_owner}
use ignium.Base.{ℕ, ◌≡◌, refl, true, false, Option, none, some, arith, ok, ◌==◌, if◌then◌else◌}
use ignium.Pages.{find, put, retire, grant, revoke, unmap_of, vacant}
use ignium.Pages.Registry.{find-put, find-retire, Registered}

pub page_owner-put :
    (t : PageTable) (id q : ℕ) (r r' : PageRecord)
    → find t.pages id ≡ some r
    → r'.id ≡ r.id
    → page_owner (put t id r') q ≡ (if id == q then some r'.owner else page_owner t q)
unfolding page_owner
page_owner-put t id q r r' h e = ground (arith, find-put t id q r r' h e)

pub page_owner-retire :
    (t : PageTable) (id q : ℕ) (r : PageRecord)
    → Registered t
    → find t.pages id ≡ some r
    → page_owner (retire t id r) q ≡ (if id == q then none else page_owner t q)
unfolding page_owner
page_owner-retire t id q r v h = ground (arith, find-retire t id q r v h)

pub find_of_owner :
    (t : PageTable) (id : ℕ) {p : ℕ}
    → page_owner t id ≡ some p
    → (r : PageRecord) × (find t.pages id ≡ some r) × (r.owner ≡ p)
unfolding page_owner
find_of_owner t id h = ground arith

pub cap_target-ok :
    (t : ProcessTable) (pid slot : ℕ) {c : Cap}
    → cap_target t pid slot ≡ ok c
    → cap_at t pid slot ≡ some c
unfolding cap_target cap_at
cap_target-ok t pid slot h = ground arith

pub cap_target-vacant :
    (t : ProcessTable) (pid slot : ℕ)
    → vacant (cap_target t pid slot) ≡ ok tt
    → cap_at t pid slot ≡ none
unfolding cap_target cap_at
cap_target-vacant t pid slot h = ground arith

pub page_of :
    (t : ProcessTable) (pid slot : ℕ) {id : ℕ}
    → as_page (cap_target t pid slot) ≡ ok id
    → cap_at t pid slot ≡ some (page id)
unfolding cap_target cap_at
page_of t pid slot h = ground arith

module _ {mem : Memory} where
  unmap_of-same :
      (va root : Option ℕ) (k : Kernel mem)
      → ((unmap_of va root k).procs ≡ k.procs) × ((unmap_of va root k).pages ≡ k.pages)
  unfolding unmap_of
  unmap_of-same none root k = (refl, refl)
  unmap_of-same (some va) none k = (refl, refl)
  unmap_of-same (some va) (some root) k = (refl, refl)

  pub grant-effect :
      (id to : ℕ) (k : Kernel mem) (r : PageRecord)
      → find k.pages.pages id ≡ some r
      → ((grant id to k).0 ≡ true)
        × ((grant id to k).1.procs ≡ k.procs)
        × ((grant id to k).1.pages ≡ put k.pages id (record r { map_va = none; owner = to }))
  unfolding grant
  grant-effect id to k r e =
      let k1 : Kernel mem = record k {
        pages = put k.pages id (record r { map_va = none; owner = to });
      } in
      let same = unmap_of-same r.map_va (pid_root k.procs r.owner) k1 in
      rw (e, grant) (refl, same.0, same.1)

  pub revoke-effect :
      (id : ℕ) (k : Kernel mem) (r : PageRecord)
      → find k.pages.pages id ≡ some r
      → ((revoke id k).1.procs ≡ k.procs) × ((revoke id k).1.pages ≡ retire k.pages id r)
  unfolding revoke
  revoke-effect id k r e =
      let k1 : Kernel mem = record k { pages = retire k.pages id r } in
      let same = unmap_of-same r.map_va (pid_root k.procs r.owner) k1 in
      rw (e, revoke) (same.0, same.1)

  pub revoke-absent :
      (id : ℕ) (k : Kernel mem) → find k.pages.pages id ≡ none → revoke id k ≡ (false, k)
  unfolding revoke
  revoke-absent id k e = rw (e, revoke)

  pub grant-absent :
      (id to : ℕ) (k : Kernel mem) → find k.pages.pages id ≡ none → grant id to k ≡ (false, k)
  unfolding grant
  grant-absent id to k e = rw (e, grant)
