-- ===== src/Ownership/Invariant.antt =====
-- The invariant of the capability system under the page operations of kernel/src/pages.rs and the
-- operations of kernel/src/process.rs.
use ignium.Pages.Registry.{find-put}
use ignium.Process.Table.{clear_cap-IsValid, grant_typed_cap-IsValid}
use ignium.Pages.Registry.{Registered, put-Registered}
use ignium.Ownership.Transfers.{page_owner-put, grant-effect}
use ignium.Ownership.Space.{Exclusive-shrink, Exclusive-move}
use ignium.Ownership.{Inv, page_owner}
use ignium.Ownership.Quiet.{Quiet}
use ignium.Kernel.{Kernel, as_page, PageRecord}
use ignium.Memory.{Memory}
use ignium.Process.{
  cap_target, ProcessTable, clear_cap, page, write_slot, max_caps, grant_typed_cap, Cap,
}
use ignium.Process.Caps.{cap_at, cap_at-write_slot}
use ignium.Base.{
  ℕ, ◌≡◌, ◌≢◌, refl, true, false, none, some, ◌⊎◌, arith, ok, ◌==◌, leb, if◌then◌else◌, is_ok, ap,
}
use ignium.Pages.{find, put, grant}

module _ {mem : Memory} where
  pub Inv-Quiet : {k k' : Kernel mem} → Quiet k k' → Inv k → Inv k'
  Inv-Quiet q v = record {
    exclusive = Exclusive-shrink v.exclusive q.fewer (λ id. ap (λ t. page_owner t id) q.same);
    registered = rw q.same v.registered;
    table = q.valid v.table;
  }

pub clear_cap-ok :
    (t : ProcessTable) (pid slot : ℕ) {c : Cap}
    → cap_at t pid slot ≡ some c
    → leb max_caps slot ≡ false
    → is_ok (clear_cap t pid slot).0 ≡ true
unfolding cap_at clear_cap write_slot
clear_cap-ok t pid slot h b = ground arith

pub slot_in_range :
    (t : ProcessTable) (pid slot : ℕ) {id : ℕ}
    → as_page (cap_target t pid slot) ≡ ok id
    → leb max_caps slot ≡ false
unfolding cap_target
slot_in_range t pid slot h = ground arith

-- The page's capability is copied to an empty slot and then cleared where it was.
module _ (t : ProcessTable) (caller src peer dst id : ℕ)
    (held : cap_at t caller src ≡ some (page id)) (small : leb max_caps src ≡ false)
    (empty : cap_at t peer dst ≡ none) where
  abbrev sent : ProcessTable
  sent = (grant_typed_cap t peer dst (page id)).1

  still_held : cap_at sent caller src ≡ some (page id)
  unfolding grant_typed_cap
  still_held = ground (arith, held, empty, cap_at-write_slot t peer dst caller src (some (page id)))

  moved_caps :
      (p s i : ℕ)
      → (cap_at t p s ≡ some (page id) → (p ≡ caller) × (s ≡ src))
      → cap_at (clear_cap sent caller src).1 p s ≡ some (page i)
      → ((i ≡ id) × (p ≡ peer) × (s ≡ dst)) ⊎ ((i ≢ id) × (cap_at t p s ≡ some (page i)))
  unfolding grant_typed_cap clear_cap
  moved_caps p s i only h = ground (
    arith,
    held,
    empty,
    clear_cap-ok sent caller src still_held small,
    cap_at-write_slot t peer dst p s (some (page id)),
    cap_at-write_slot sent caller src p s none,
  )

module _ {mem : Memory} (caller src peer dst id : ℕ) (k : Kernel mem) (v : Inv k)
    (held : cap_at k.procs caller src ≡ some (page id)) where
  pub only_there : (p s : ℕ) → cap_at k.procs p s ≡ some (page id) → (p ≡ caller) × (s ≡ src)
  only_there p s h =
      let e : p ≡ caller =
        ground (arith, v.exclusive.owned p s id h, v.exclusive.owned caller src id held) in
      (e, v.exclusive.single caller s src id (rw (← e) h) held)

  -- The state between the change of owner and the writing of the receiving slot.
  module _ (k1 : Kernel mem) (r : PageRecord) (found : find k.pages.pages id ≡ some r)
      (same : k1.procs ≡ k.procs)
      (given : k1.pages ≡ put k.pages id (record r { map_va = none; owner = peer })) where
    given_owner :
        (q : ℕ) → page_owner k1.pages q ≡ (if id == q then some peer else page_owner k.pages q)
    given_owner q = rw given (page_owner-put k.pages id q r _ found refl)

    given-Registered : Registered k1.pages
    given-Registered = rw given (put-Registered k.pages id r _ found refl v.registered)

    pub sent-Inv :
        leb max_caps src ≡ false
        → cap_at k.procs peer dst ≡ none
        → Inv (record k1 {
          procs = (clear_cap (grant_typed_cap k1.procs peer dst (page id)).1 caller src).1;
        })
    sent-Inv small empty = record {
      exclusive =
          Exclusive-move v.exclusive id peer dst
            (λ p s i.
              rw same
                (moved_caps k.procs caller src peer dst id held small empty p s i (only_there p s)))
            given_owner;
      registered = given-Registered;
      table =
          clear_cap-IsValid _ caller src
            (grant_typed_cap-IsValid k1.procs peer dst (page id) (rw same v.table));
    }

    -- The receiving slot could not be written: the page goes back to the caller.
    pub returned-Inv :
        (k2 : Kernel mem) → k2.procs ≡ k1.procs → k2.pages ≡ k1.pages → Inv (grant id caller k2).1
    returned-Inv k2 procs pages =
        let r1 : PageRecord = record r { map_va = none; owner = peer } in
        let found1 : find k1.pages.pages id ≡ some r1 =
          rw given (ground (arith, find-put k.pages id id r r1 found refl)) in
        let back = grant-effect id caller k2 r1 (rw pages found1) in
        record {
          exclusive =
              Exclusive-shrink v.exclusive (λ p s i. rw (back.1, procs, same) (λ h. h))
                (λ q.
                  rw (back.2, pages)
                    (ground (
                      arith,
                      page_owner-put k1.pages id q r1 (record r1 { map_va = none; owner = caller })
                          found1 refl,
                      given_owner q,
                      v.exclusive.owned caller src id held,
                    )));
          registered =
              rw (back.2, pages) (put-Registered k1.pages id r1 _ found1 refl given-Registered);
          table = rw (back.1, procs, same) v.table;
        }
