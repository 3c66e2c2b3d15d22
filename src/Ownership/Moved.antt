-- ===== src/Ownership/Moved.antt =====
-- What a successful `mem_grant` (kernel/src/pages.rs) has done.
use ignium.Ownership.{Inv, page_owner}
use ignium.Process.Caps.{cap_at, cap_at-grant, cap_at-clear}
use ignium.Kernel.{Kernel, as_proc, PageRecord}
use ignium.Memory.{Memory}
use ignium.Base.{
  ℕ, ◌≡◌, ◌≢◌, refl, true, false, ◌&&◌, none, some, ◌⊎◌, arith, Result, ok, err, ◌==◌, leb, ◌>>=◌,
  ◌>>◌, if◌then◌else◌, err≢ok, ap, is_ok,
}
use ignium.Base.Rules.{outcome_reading, outcome_check, outcome_test}
use ignium.Pages.{mem_grant, find, put, grant, move_owner, deliver, drop_slot}
use ignium.Ownership.Invariant.{clear_cap-ok, slot_in_range}
use ignium.Ownership.Transfers.{
  find_of_owner, grant-effect, page_of, cap_target-vacant, page_owner-put,
}
use ignium.Process.{page, grant_typed_cap, clear_cap, cap_target, max_caps, CapError, ProcessTable}

-- The slots after the page is written to one and cleared from the other.
sent_caps :
    (t : ProcessTable) (caller src peer dst id : ℕ)
    → cap_at t caller src ≡ some (page id)
    → leb max_caps src ≡ false
    → cap_at t peer dst ≡ none
    → is_ok (grant_typed_cap t peer dst (page id)).0 ≡ true
    → (p s : ℕ)
    → cap_at (clear_cap (grant_typed_cap t peer dst (page id)).1 caller src).1 p s ≡ (
        if p == caller && s == src
        then none
        else if p == peer && s == dst
        then some (page id)
        else cap_at t p s)
sent_caps t caller src peer dst id held small empty done p s =
    let sent = (grant_typed_cap t peer dst (page id)).1 in
    let still : cap_at sent caller src ≡ some (page id) =
      ground (arith, held, empty, cap_at-grant t peer dst caller src (page id)) in
    ground (
      arith,
      done,
      clear_cap-ok sent caller src still small,
      cap_at-grant t peer dst p s (page id),
      cap_at-clear sent caller src p s,
    )

module _ {mem : Memory} (caller src peer_slot dst : ℕ) (k : Kernel mem) where
  -- The page has moved: from a slot of the caller, which is empty now, to a slot that was empty, of a
  -- process that the caller has a capability for, which owns the page now.
  pub record HasMoved (k' : Kernel mem) : Type 0 where
    id : ℕ
    peer : ℕ
    was_held : cap_at k.procs caller src ≡ some (page id)
    was_empty : cap_at k.procs peer dst ≡ none
    connected : as_proc (cap_target k.procs caller peer_slot) ≡ ok peer
    emptied : cap_at k'.procs caller src ≡ none
    holds : cap_at k'.procs peer dst ≡ some (page id)
    owns : page_owner k'.pages id ≡ some peer
    others :
        (p s : ℕ)
        → (p ≢ caller) ⊎ (s ≢ src)
        → (p ≢ peer) ⊎ (s ≢ dst)
        → cap_at k'.procs p s ≡ cap_at k.procs p s

  abbrev Success : Result (Unit {0}) ℕ × Kernel mem → Type 0
  Success r = r.0 ≡ ok tt → HasMoved r.1

  refused : (e : ℕ) → Success (err e, k)
  refused e h = elim (err≢ok h) [ ]

  moved_transfer :
      (id peer : ℕ) (v : Inv k)
      → cap_at k.procs caller src ≡ some (page id)
      → as_proc (cap_target k.procs caller peer_slot) ≡ ok peer
      → leb max_caps src ≡ false
      → cap_at k.procs peer dst ≡ none
      → Success ((move_owner id peer >> (deliver caller id peer dst >> drop_slot caller src)) k)
  unfolding ◌>>◌ ◌>>=◌ move_owner deliver drop_slot
  moved_transfer id peer v held conn small empty =
      let (r, found, own) = find_of_owner k.pages id (v.exclusive.owned caller src id held) in
      let g = grant-effect id peer k r found in
      rw (g.0)
        (go r found g.1 g.2 (grant_typed_cap (grant id peer k).1.procs peer dst (page id)).0 refl)
    where
      go :
          (r : PageRecord)
          → find k.pages.pages id ≡ some r
          → (grant id peer k).1.procs ≡ k.procs
          → (grant id peer k).1.pages ≡ put k.pages id (record r { map_va = none; owner = peer })
          → (w : Result (Unit {0}) CapError)
          → (grant_typed_cap (grant id peer k).1.procs peer dst (page id)).0 ≡ w
          → Success ((deliver caller id peer dst >> drop_slot caller src) (grant id peer k).1)
      go r found same given (ok u) e =
          let caps =
            sent_caps k.procs caller src peer dst id held small empty (rw (← same) (ap is_ok e)) in
          rw e (λ _. record {
            id = id;
            peer = peer;
            was_held = held;
            was_empty = empty;
            connected = conn;
            emptied = rw same (ground (arith, caps caller src));
            holds = rw same (ground (arith, caps peer dst, held, empty));
            owns = rw given (
                ground (
                  arith,
                  page_owner-put k.pages id id r (record r { map_va = none; owner = peer }) found
                      refl,
                ));
            others = λ p s a b. rw same (ground (arith, caps p s, a, b));
          })
      go r found same given (err x) e = rw e (λ h. elim (err≢ok h) [ ])

  -- Where the invariant holds, a page transfer that reports success has moved the page from a
  -- slot of the caller, which is empty afterwards, to a slot that was empty, of a process
  -- that the caller has a capability for, which owns the page afterwards; no other slot has
  -- changed.
  pub mem_grant_moves :
      Inv k
      → (mem_grant caller src peer_slot dst k).0 ≡ ok tt
      → HasMoved (mem_grant caller src peer_slot dst k).1
  unfolding mem_grant
  mem_grant_moves v = outcome_reading Success _ _ k refused λ id page_held.
      outcome_reading Success _ _ k refused λ peer connected.
        outcome_check Success _ _ k refused λ alive.
          outcome_test Success _ _ _ k refused λ in_range.
            outcome_check Success _ _ k refused λ vacancy.
              moved_transfer id peer v (page_of k.procs caller src page_held) connected
                (slot_in_range k.procs caller src page_held)
                (cap_target-vacant k.procs peer dst vacancy)
