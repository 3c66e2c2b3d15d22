-- ===== src/Ownership/Revoke.antt =====
-- Issuing, copying and revoking capabilities (kernel/src/process.rs, kernel/src/pages.rs) keep the
-- invariant of the capability system.
use ignium.Shm.{shm_revoke}
use ignium.Ownership.Registries.{clear-Quiet, shm_revoke-Quiet}
use ignium.Lifecycle.{cap_revoke}
use ignium.Ownership.Transfers.{find_of_owner, revoke-effect, page_owner-retire, cap_target-ok}
use ignium.Process.Table.{cap_duplicate-IsValid, grant_typed_cap-IsValid, clear_cap-IsValid}
use ignium.Ownership.Changes.{cap_duplicate-NoNewPages, clear_cap-NoNewPages}
use ignium.Ownership.Quiet.{Quiet-procs, if-Quiet}
use ignium.Ownership.Invariant.{Inv-Quiet, clear_cap-ok, only_there}
use ignium.Process.{
  cap_duplicate, page, grant_typed_cap, max_caps, clear_cap, page_not_found, cap_target, Cap,
  CapError, proc, shm, shm_not_found,
}
use ignium.Ownership.Space.{Exclusive-issue, Exclusive-move, Exclusive-forget}
use ignium.Process.Caps.{cap_at, cap_at-grant, cap_at-clear}
use ignium.Pages.Registry.{Registered, insert-Registered, retire-Registered}
use ignium.Kernel.{PageTable, Kernel}
use ignium.Memory.{Memory}
use ignium.Ownership.{page_owner, Inv}
use ignium.Base.{
  ℕ, ◌≡◌, ◌≢◌, refl, Bool, true, false, Option, none, some, ◌⊎◌, inl, inr, arith, Result, ok, err,
  ◌==◌, leb, ◌>>=◌, ◌>>◌, if◌then◌else◌, fail_if, reading, Bool-cases, err≢ok, ◌∙◌, ap,
}
use ignium.Pages.{revoke, insert, alloc}

page_owner-insert :
    (t : PageTable) (paddr owner q : ℕ) {idx : ℕ} (done : (insert t paddr owner).0 ≡ some idx)
    → Registered t
    → (page_owner t idx ≡ none)
      × (page_owner (insert t paddr owner).1 q ≡ (if idx == q then some owner else page_owner t q))
unfolding page_owner
page_owner-insert t paddr owner q {idx} done v =
    let (free, reg, all) = insert-Registered t paddr owner done v in
    (ground (arith, free), ground (arith, all q))

module _ {mem : Memory} where
  -- Registering a new page keeps the invariant, also when the table is full or memory has run out.
  pub alloc-Inv : (owner : ℕ) (k : Kernel mem) → Inv k → Inv (alloc owner k).1
  unfolding alloc
  alloc-Inv owner k v = got (mem.alloc_page k.store).0 refl
    where
      placed :
          (a : ℕ) (o : Option ℕ) (t : PageTable)
          → (mem.alloc_page k.store).0 ≡ some a
          → (insert k.pages a owner).0 ≡ o
          → Inv (alloc owner k).1
      placed a none t e f =
          rw (e, f, alloc)
            (record { exclusive = v.exclusive; registered = v.registered; table = v.table })
      placed a (some idx) t e f =
          rw (e, f, alloc)
            (record {
              exclusive =
                  Exclusive-issue v.exclusive idx owner
                    (page_owner-insert k.pages a owner idx f v.registered).0 (λ p s i h. h)
                    (λ q. (page_owner-insert k.pages a owner q f v.registered).1);
              registered = (insert-Registered k.pages a owner f v.registered).1;
              table = v.table;
            })

      got : (o : Option ℕ) → (mem.alloc_page k.store).0 ≡ o → Inv (alloc owner k).1
      got none e =
          rw (e, alloc)
            (record { exclusive = v.exclusive; registered = v.registered; table = v.table })
      got (some a) e = placed a (insert k.pages a owner).0 k.pages e refl

  -- A page that nobody holds may be given to its owner, in any slot.
  pub issue-Inv :
      (k : Kernel mem) (owner slot id : ℕ)
      → Inv k
      → page_owner k.pages id ≡ some owner
      → ((p s : ℕ) → cap_at k.procs p s ≢ some (page id))
      → Inv (record k { procs = (grant_typed_cap k.procs owner slot (page id)).1 })
  issue-Inv k owner slot id v own unheld = record {
    exclusive =
        Exclusive-move v.exclusive id owner slot (λ p s i h. given p s i h)
          (λ q. ground (arith, own));
    registered = v.registered;
    table = grant_typed_cap-IsValid k.procs owner slot (page id) v.table;
  }
    where
      given :
          (p s i : ℕ)
          → cap_at (grant_typed_cap k.procs owner slot (page id)).1 p s ≡ some (page i)
          → ((i ≡ id) × (p ≡ owner) × (s ≡ slot))
            ⊎ ((i ≢ id) × (cap_at k.procs p s ≡ some (page i)))
      given p s i h = ground (arith, cap_at-grant k.procs owner slot p s (page id), unheld p s)

  pub cap_duplicate-Inv :
      (k : Kernel mem) (pid from to : ℕ)
      → Inv k
      → Inv (record k { procs = (cap_duplicate k.procs pid from to).1 })
  cap_duplicate-Inv k pid from to v =
      Inv-Quiet
        (Quiet-procs k (record k { procs = (cap_duplicate k.procs pid from to).1 })
          (cap_duplicate-NoNewPages k.procs pid from to) (cap_duplicate-IsValid k.procs pid from to)
          refl)
        v

  revoked-Inv :
      (k : Kernel mem) (pid slot id : ℕ)
      → Inv k
      → cap_at k.procs pid slot ≡ some (page id)
      → leb max_caps slot ≡ false
      → Inv (record (revoke id k).1 { procs = (clear_cap (revoke id k).1.procs pid slot).1 })
  revoked-Inv k pid slot id v held small =
      let (r, found, own) = find_of_owner k.pages id (v.exclusive.owned pid slot id held) in
      let eff = revoke-effect id k r found in
      record {
        exclusive =
            rw (eff.0, eff.1)
              (Exclusive-forget v.exclusive id (clear_cap-NoNewPages k.procs pid slot)
                (λ p s h. ground (
                  arith,
                  held,
                  cap_at-clear k.procs pid slot p s,
                  clear_cap-ok k.procs pid slot held small,
                  only_there pid slot 0 0 id k v held p s,
                ))
                (λ q. page_owner-retire k.pages id q r v.registered found));
        registered = rw eff.1 (retire-Registered k.pages id r found v.registered);
        table = rw eff.0 (clear_cap-IsValid k.procs pid slot v.table);
      }

  -- Revoking a capability keeps the invariant of the kernel, unless it reports that the page
  -- is not there.
  pub cap_revoke-Inv :
      (pid slot : ℕ) (k : Kernel mem)
      → Inv k
      → (cap_revoke pid slot k).0 ≢ err page_not_found
      → Inv (cap_revoke pid slot k).1
  unfolding cap_revoke ◌>>◌ ◌>>=◌ fail_if reading
  cap_revoke-Inv pid slot k v refused = elim (Bool-cases (leb max_caps slot)) [
    | inl b ↦ rw (b, cap_revoke) v
    | inr b ↦ go b (cap_target k.procs pid slot) refl
  ]
    where
      page_case :
          (id : ℕ) (done : Bool)
          → leb max_caps slot ≡ false
          → cap_target k.procs pid slot ≡ ok (page id)
          → (revoke id k).0 ≡ done
          → Inv (cap_revoke pid slot k).1
      page_case id true b e f =
          rw (b, e, f, cap_revoke)
            (revoked-Inv k pid slot id v (cap_target-ok k.procs pid slot e) b)
      page_case id false b e f = absurd (refused (rw (b, e, f, cap_revoke)))

      go :
          leb max_caps slot ≡ false
          → (c : Result Cap CapError) → cap_target k.procs pid slot ≡ c
          → Inv (cap_revoke pid slot k).1
      go b (err x) e = rw (b, e, cap_revoke) v
      go b (ok (proc p)) e = rw (b, e, cap_revoke) (Inv-Quiet (clear-Quiet k pid slot) v)
      go b (ok (shm id)) e =
          rw (b, e, cap_revoke)
            (Inv-Quiet
              (if-Quiet k (shm_revoke id k).0 (ok tt, (shm_revoke id k).1)
                (err shm_not_found, (shm_revoke id k).1) (shm_revoke-Quiet id k)
                (shm_revoke-Quiet id k))
              v)
      go b (ok (page id)) e = page_case id (revoke id k).0 b e refl

  -- Where the invariant holds, a page that has just been registered belongs to the process
  -- that it was registered for, nobody holds a capability for it, and no capability has
  -- changed.
  pub alloc_fresh :
      (owner : ℕ) (k : Kernel mem) {idx : ℕ}
      → Inv k
      → (alloc owner k).0 ≡ ok idx
      → (page_owner (alloc owner k).1.pages idx ≡ some owner)
        × ((p s : ℕ) → cap_at (alloc owner k).1.procs p s ≢ some (page idx))
        × ((alloc owner k).1.procs ≡ k.procs)
  unfolding alloc
  alloc_fresh owner k {idx} v done = got (mem.alloc_page k.store).0 refl
    where
      Fresh : Type 0
      Fresh =
          (page_owner (alloc owner k).1.pages idx ≡ some owner)
          × ((p s : ℕ) → cap_at (alloc owner k).1.procs p s ≢ some (page idx))
          × ((alloc owner k).1.procs ≡ k.procs)

      placed :
          (a : ℕ) (o : Option ℕ)
          → (mem.alloc_page k.store).0 ≡ some a
          → (insert k.pages a owner).0 ≡ o
          → Fresh
      placed a none e f = absurd (err≢ok (rw (e, f, alloc) at done))
      placed a (some i) e f =
          let same : i ≡ idx = ground (arith, (rw (e, f, alloc) at done)) in
          let new = page_owner-insert k.pages a owner idx (f ∙ ap some same) v.registered in
          rw (e, f, alloc)
            (
              ground (arith, new.1),
              (λ p s h. ground (arith, new.0, v.exclusive.owned p s idx h)),
              refl,
            )

      got : (o : Option ℕ) → (mem.alloc_page k.store).0 ≡ o → Fresh
      got none e = absurd (err≢ok (rw (e, alloc) at done))
      got (some a) e = placed a (insert k.pages a owner).0 e refl
