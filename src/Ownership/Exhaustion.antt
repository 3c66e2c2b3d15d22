-- ===== src/Ownership/Exhaustion.antt =====
-- The limit on page records (kernel/src/pages.rs): `alloc` tests the length of the table before it looks
-- at the queue of freed indices, and the table never shrinks.
use ignium.Abi.{usize_max, sys_err_enomem}
use ignium.Ownership.Destroy.{revoke_shms-Quiet}
use ignium.Ownership.Transfers.{revoke-absent, revoke-effect}
use ignium.Kernel.{Kernel, PageRecord, PageTable}
use ignium.Lifecycle.{destroy, revoke_pages, revoke_shms, bury, page_ids, cap_slots, shm_ids}
use ignium.Memory.{Memory}
use ignium.Base.{
  ℕ, ◌≤◌, ◌≡◌, refl, true, Option, none, some, List, [], ◌∷◌, inl, inr, arith, err, leb, length,
  ◌∙◌, Option-cases, length-set, ap, false, ◌++◌, ◌==◌, contains, contains-push, is_some,
  get_elem?-set, Bool-cases, subst,
}
use ignium.Pages.{max_pages, find, retire, insert, alloc, revoke}
use ignium.Process.{find as find_process, Process}

abbrev pub size : {mem : Memory} → Kernel mem → ℕ
size k = length k.pages.pages

find-elsewhere :
    (t : PageTable) (id q : ℕ) (r : PageRecord)
    → (id == q) ≡ false
    → find (retire t id r).pages q ≡ find t.pages q
unfolding find retire
find-elsewhere t id q r n =
    ground (arith, n, get_elem?-set t.pages id q (record r { id = usize_max; map_va = none }))

module _ {mem : Memory} where
  revoke-size : (id : ℕ) (k : Kernel mem) → size (revoke id k).1 ≡ size k
  revoke-size id k = go (find k.pages.pages id) refl
    where
      go : (o : Option PageRecord) → find k.pages.pages id ≡ o → size (revoke id k).1 ≡ size k
      go none e = rw (revoke-absent id k e)
      go (some r) e = rw ((revoke-effect id k r e).1) (
          unfold retire in length-set k.pages.pages id (record r { id = usize_max; map_va = none }))

  revoke_pages-size : (ids : List ℕ) (k : Kernel mem) → size (revoke_pages ids k) ≡ size k
  unfolding revoke_pages
  revoke_pages-size [] k = refl
  revoke_pages-size (id ∷ ids) k = revoke_pages-size ids (revoke id k).1 ∙ revoke-size id k

  bury-size : (pid : ℕ) (k : Kernel mem) → size (bury pid k) ≡ size k
  unfolding bury
  bury-size pid k = ground arith

  destroy-size : (pid : ℕ) (k : Kernel mem) → size (destroy pid k) ≡ size k
  unfolding destroy
  destroy-size pid k = go (find_process k.procs.slots pid) refl
    where
      go : (o : Option Process) → find_process k.procs.slots pid ≡ o → size (destroy pid k) ≡ size k
      go none e = rw (e, destroy)
      go (some p) e =
          rw (e, destroy)
            (bury-size pid _
              ∙ revoke_pages-size (page_ids p.caps cap_slots) _
              ∙ ap (λ t. length t.pages) (revoke_shms-Quiet (shm_ids p.caps cap_slots) k).same)

  -- What a revocation does to the queue of freed indices and to the lookup of the others.
  record Freed (id : ℕ) (k k' : Kernel mem) : Type 0 where
    kept : (q : ℕ) → contains k.pages.free q ≡ true → contains k'.pages.free q ≡ true
    queued : is_some (find k.pages.pages id) ≡ true → contains k'.pages.free id ≡ true
    others : (q : ℕ) → (id == q) ≡ false → find k'.pages.pages q ≡ find k.pages.pages q

  revoke-Freed : (id : ℕ) (k : Kernel mem) → Freed id k (revoke id k).1
  revoke-Freed id k = elim (Option-cases (find k.pages.pages id)) [
    | inl e ↦
        rw (revoke-absent id k e)
          (record { kept = λ q h. h; queued = λ h. ground (arith, e, h); others = λ q n. refl })
    | inr (r, e) ↦
        let same = (revoke-effect id k r e).1 in
        let free : (revoke id k).1.pages.free ≡ k.pages.free ++ id ∷ [] =
          unfold retire in ap (λ t. t.free) same in
        record {
          kept = λ q h. rw free (ground (arith, h, contains-push k.pages.free id q));
          queued = λ h. rw free (ground (arith, contains-push k.pages.free id id));
          others = λ q n. ap (λ t. find t.pages q) same ∙ find-elsewhere k.pages id q r n;
        }
  ]

  revoke_pages-kept :
      (ids : List ℕ) (k : Kernel mem) (q : ℕ)
      → contains k.pages.free q ≡ true
      → contains (revoke_pages ids k).pages.free q ≡ true
  unfolding revoke_pages
  revoke_pages-kept [] k q h = h
  revoke_pages-kept (id ∷ ids) k q h =
      revoke_pages-kept ids (revoke id k).1 q ((revoke-Freed id k).kept q h)

  revoke_pages-queued :
      (ids : List ℕ) (k : Kernel mem) (q : ℕ)
      → contains ids q ≡ true
      → is_some (find k.pages.pages q) ≡ true
      → contains (revoke_pages ids k).pages.free q ≡ true
  unfolding revoke_pages
  revoke_pages-queued [] k q h f = absurd (ground (arith, h))
  revoke_pages-queued (id ∷ ids) k q h f =
      let freed = revoke-Freed id k in
      elim (Bool-cases (id == q)) [
        | inl same ↦
            let e : id ≡ q = ground (arith, same) in
            revoke_pages-kept ids (revoke id k).1 q
              (subst (λ x. contains (revoke id k).1.pages.free x ≡ true) e (freed.queued (rw e f)))
        | inr other ↦
            revoke_pages-queued ids (revoke id k).1 q (ground (arith, h, other))
              (rw (freed.others q other) f)
      ]

  bury-free : (pid : ℕ) (k : Kernel mem) → (bury pid k).pages.free ≡ k.pages.free
  unfolding bury
  bury-free pid k = ground arith

  destroy-kept :
      (pid : ℕ) (k : Kernel mem) (q : ℕ)
      → contains k.pages.free q ≡ true
      → contains (destroy pid k).pages.free q ≡ true
  unfolding destroy
  destroy-kept pid k q h = elim (Option-cases (find_process k.procs.slots pid)) [
    | inl e ↦ rw (e, destroy) h
    | inr (p, e) ↦
        let shms = (revoke_shms-Quiet (shm_ids p.caps cap_slots) k).same in
        let k1 = revoke_shms (shm_ids p.caps cap_slots) k in
        rw (e, destroy, bury-free pid (revoke_pages (page_ids p.caps cap_slots) k1))
          (revoke_pages-kept (page_ids p.caps cap_slots) k1 q
            (ap (λ t. contains t.free q) shms ∙ h))
  ]

  -- Once the page table has MAX_PAGES records, an allocation after any pages are revoked and
  -- any process is destroyed fails with ENOMEM, though each of the revoked indices that had a
  -- page is then in the queue of freed indices.
  pub alloc_exhausted :
      (k : Kernel mem) (ids : List ℕ) (pid owner : ℕ)
      → max_pages ≤ size k
      → ((alloc owner (destroy pid (revoke_pages ids k))).0 ≡ err sys_err_enomem)
        × ((id : ℕ)
            → contains ids id ≡ true
            → is_some (find k.pages.pages id) ≡ true
            → contains (destroy pid (revoke_pages ids k)).pages.free id ≡ true)
  unfolding alloc insert
  alloc_exhausted k ids pid owner h =
      let l = destroy pid (revoke_pages ids k) in
      let e : leb max_pages (size l) ≡ true =
        ground (arith, destroy-size pid (revoke_pages ids k), revoke_pages-size ids k) in
      (
        elim (Option-cases (mem.alloc_page l.store).0) [
          | inl f ↦ rw (f, alloc) refl
          | inr (a, f) ↦ rw (f, alloc, e) refl
        ],
        λ id named found.
            destroy-kept pid (revoke_pages ids k) id (revoke_pages-queued ids k id named found),
      )
