-- ===== src/Ownership/Destroy.antt =====
-- `create` and `destroy` of kernel/src/process.rs keep the invariant of the capability system.
use ignium.Ownership.Changes.{insert-NoNewPages}
use ignium.Ownership.Invariant.{Inv-Quiet}
use ignium.Abi.{usize_max}
use ignium.Shm.{shm_revoke}
use ignium.Ownership.Registries.{shm_revoke-Quiet}
use ignium.Process.Table.{IsValid, find_small, retire-IsValid, insert-IsValid}
use ignium.Ownership.Space.{Exclusive, Exclusive-forget, NoNewPages, Exclusive-shrink}
use ignium.Ownership.Quiet.{Quiet, Quiet-refl, Quiet-trans}
use ignium.Ownership.Transfers.{revoke-absent, page_owner-retire, revoke-effect}
use ignium.Pages.Registry.{Registered, retire-Registered}
use ignium.Process.Caps.{cap_at, cap_at-retire, retire-absent}
use ignium.Lifecycle.{
  revoke_pages, revoke_shms, bury, create, destroy, page_ids, shm_ids, cap_slots,
}
use ignium.Ownership.{page_owner, Inv}
use ignium.Memory.{Memory}
use ignium.Kernel.{PageTable, PageRecord, Kernel}
use ignium.Base.{
  ℕ, ◌<◌, ◌≡◌, refl, false, Option, none, some, List, [], ◌∷◌, ◌⊎◌, inl, inr, arith, ◌==◌, leb,
  if◌then◌else◌, Bool-cases,
}
use ignium.Process.{
  find, retire, ProcessTable, Cap, Process, max_processes, live_count, proc, shm, page,
}
use ignium.Pages.{find as find_page, retire as retire_page, revoke}

-- The capability space with one process left out.
abbrev without : ProcessTable → ℕ → ℕ → ℕ → Option Cap
without t pid p s = if pid == p then none else cap_at t p s

-- The page belongs to the process, or to nobody.
abbrev Belongs : PageTable → ℕ → ℕ → Type 0
Belongs t pid id = (page_owner t id ≡ none) ⊎ (page_owner t id ≡ some pid)

abbrev AllBelong : PageTable → ℕ → List ℕ → Type 0
AllBelong t pid [] = Unit {0}
AllBelong t pid (id ∷ ids) = Belongs t pid id × AllBelong t pid ids

AllBelong-retire :
    (t : PageTable) (pid id : ℕ) (r : PageRecord) (ids : List ℕ)
    → Registered t
    → find_page t.pages id ≡ some r
    → AllBelong t pid ids
    → AllBelong (retire_page t id r) pid ids
AllBelong-retire t pid id r [] v e h = tt
AllBelong-retire t pid id r (i ∷ ids) v e h =
    (ground (arith, page_owner-retire t id i r v e, h.0), AllBelong-retire t pid id r ids v e h.1)

-- The invariant while the pages of one process go.
record InvBut {mem : Memory} (pid : ℕ) (k : Kernel mem) : Type 0 where
  exclusive : Exclusive (without k.procs pid) (page_owner k.pages)
  registered : Registered k.pages
  table : IsValid k.procs

module _ {mem : Memory} where
  revoke-InvBut :
      (pid id : ℕ) (k : Kernel mem)
      → InvBut pid k
      → Belongs k.pages pid id
      → InvBut pid (revoke id k).1
  revoke-InvBut pid id k v own = go (find_page k.pages.pages id) refl
    where
      go : (o : Option PageRecord) → find_page k.pages.pages id ≡ o → InvBut pid (revoke id k).1
      go none e = rw (revoke-absent id k e) v
      go (some r) e =
          let eff = revoke-effect id k r e in
          record {
            exclusive =
                rw (eff.0, eff.1)
                  (Exclusive-forget v.exclusive id (λ p s i h. h)
                    (λ p s h. ground (arith, v.exclusive.owned p s id h, own))
                    (λ q. page_owner-retire k.pages id q r v.registered e));
            registered = rw eff.1 (retire-Registered k.pages id r e v.registered);
            table = rw eff.0 v.table;
          }

  AllBelong-revoke :
      (pid id : ℕ) (ids : List ℕ) (k : Kernel mem)
      → InvBut pid k
      → AllBelong k.pages pid ids
      → AllBelong (revoke id k).1.pages pid ids
  AllBelong-revoke pid id ids k v h = go (find_page k.pages.pages id) refl
    where
      go :
          (o : Option PageRecord)
          → find_page k.pages.pages id ≡ o
          → AllBelong (revoke id k).1.pages pid ids
      go none e = rw (revoke-absent id k e) h
      go (some r) e =
          rw ((revoke-effect id k r e).1) (AllBelong-retire k.pages pid id r ids v.registered e h)

  revoke_pages-InvBut :
      (pid : ℕ) (ids : List ℕ) (k : Kernel mem)
      → InvBut pid k
      → AllBelong k.pages pid ids
      → InvBut pid (revoke_pages ids k)
  unfolding revoke_pages
  revoke_pages-InvBut pid [] k v h = v
  revoke_pages-InvBut pid (id ∷ ids) k v h =
      revoke_pages-InvBut pid ids (revoke id k).1 (revoke-InvBut pid id k v h.0)
        (AllBelong-revoke pid id ids k v h.1)

  pub revoke_shms-Quiet : (ids : List ℕ) (k : Kernel mem) → Quiet k (revoke_shms ids k)
  unfolding revoke_shms
  revoke_shms-Quiet [] k = Quiet-refl k
  revoke_shms-Quiet (id ∷ ids) k =
      Quiet-trans (shm_revoke-Quiet id k) (revoke_shms-Quiet ids (shm_revoke id k).1)

  -- The pages that the table of capabilities names belong to the process that holds them.
  page_ids-AllBelong :
      (k : Kernel mem) (pid : ℕ) (p : Process) (slots : List ℕ)
      → Inv k
      → find k.procs.slots pid ≡ some p
      → AllBelong k.pages pid (page_ids p.caps slots)
  unfolding page_ids
  page_ids-AllBelong k pid p [] v e = tt
  page_ids-AllBelong k pid p (slot ∷ slots) v e =
      go (page_ids-AllBelong k pid p slots v e) (p.caps slot) refl
    where
      go :
          AllBelong k.pages pid (page_ids p.caps slots)
          → (c : Option Cap) → p.caps slot ≡ c
          → AllBelong k.pages pid (page_ids p.caps (slot ∷ slots))
      go rest none f = rw (f, page_ids) rest
      go rest (some (proc q)) f = rw (f, page_ids) rest
      go rest (some (shm q)) f = rw (f, page_ids) rest
      go rest (some (page id)) f =
          rw (f, page_ids)
            (inr (v.exclusive.owned pid slot id (unfold cap_at in rw (e, f) refl)), rest)

  bury-Inv : (pid : ℕ) (k : Kernel mem) → pid < usize_max → InvBut pid k → Inv (bury pid k)
  unfolding bury
  bury-Inv pid k small v = go (retire k.procs pid).0 refl
    where
      left : NoNewPages (without k.procs pid) (cap_at (retire k.procs pid).1)
      left p s id h = ground (arith, cap_at-retire k.procs pid p s small)

      go : (o : Option ℕ) → (retire k.procs pid).0 ≡ o → Inv (bury pid k)
      go none e =
          rw (e, bury)
            (record {
              exclusive =
                  Exclusive-shrink v.exclusive
                    (λ p s id h. left p s id (rw (retire-absent k.procs pid e) h)) (λ id. refl);
              registered = v.registered;
              table = v.table;
            })
      go (some root) e =
          rw (e, bury)
            (record {
              exclusive = Exclusive-shrink v.exclusive left (λ id. refl);
              registered = v.registered;
              table = retire-IsValid k.procs pid v.table;
            })

  -- Destroying a process keeps the invariant of the kernel, whatever the freeing of its pages
  -- reports.
  pub destroy-Inv : (pid : ℕ) (k : Kernel mem) → Inv k → Inv (destroy pid k)
  unfolding destroy
  destroy-Inv pid k v = go (find k.procs.slots pid) refl
    where
      go : (o : Option Process) → find k.procs.slots pid ≡ o → Inv (destroy pid k)
      go none e = rw (e, destroy) v
      go (some p) e =
          let k1 = revoke_shms (shm_ids p.caps cap_slots) k in
          let q = revoke_shms-Quiet (shm_ids p.caps cap_slots) k in
          let v1 = Inv-Quiet q v in
          let start : InvBut pid k1 = record {
            exclusive = Exclusive-shrink v1.exclusive (λ a s id h. ground arith) (λ id. refl);
            registered = v1.registered;
            table = v1.table;
          } in
          rw (e, destroy)
            (bury-Inv pid (revoke_pages (page_ids p.caps cap_slots) k1)
              (find_small k.procs pid v.table e)
              (revoke_pages-InvBut pid (page_ids p.caps cap_slots) k1 start
                (rw q.same (page_ids-AllBelong k pid p cap_slots v e))))

  -- Creating a process keeps the invariant, also when it fails.
  pub create-Inv : (k : Kernel mem) → Inv k → Inv (create k).1
  unfolding create
  create-Inv k v = elim (Bool-cases (leb max_processes (live_count k.procs))) [
    | inl b ↦ rw (b, create) v
    | inr b ↦ go b (mem.create_user_root k.store).0 refl
  ]
    where
      go :
          leb max_processes (live_count k.procs) ≡ false
          → (o : Option ℕ) → (mem.create_user_root k.store).0 ≡ o
          → Inv (create k).1
      go b none e =
          rw (b, e, create)
            (record { exclusive = v.exclusive; registered = v.registered; table = v.table })
      go b (some root) e =
          rw (b, e, create)
            (record {
              exclusive =
                  Exclusive-shrink v.exclusive (insert-NoNewPages k.procs root v.table)
                    (λ id. refl);
              registered = v.registered;
              table = insert-IsValid k.procs root v.table (ground (arith, b));
            })
