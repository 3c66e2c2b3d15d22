-- ===== src/Ownership/Changes.antt =====
-- What each operation on the process table (kernel/src/process.rs) does to the page capabilities: none
-- but the grant of a page gives one to a slot that had none.
use ignium.Process.{insert}
use ignium.Process.Table.{IsValid, next_slot_in_range}
use ignium.Process.{insert}
use ignium.Ownership.Space.{NoNewPages}
use ignium.Process.Caps.{cap_at, cap_at-cap_duplicate, cap_at-write_slot, find-insert}
use ignium.Base.{ℕ, ◌≡◌, ◌≢◌, true, Option, none, some, arith, is_ok}
use ignium.Process.{page, cap_duplicate, clear_cap, ProcessTable, Cap, fresh, write_slot}

pub write_slot-NoNewPages :
    (t : ProcessTable) (pid slot : ℕ) (value : Option Cap)
    → ((id : ℕ) → value ≢ some (page id))
    → NoNewPages (cap_at t) (cap_at (write_slot t pid slot value).1)
write_slot-NoNewPages t pid slot value h p s id e =
    ground (arith, h id, cap_at-write_slot t pid slot p s value)

pub clear_cap-NoNewPages :
    (t : ProcessTable) (pid slot : ℕ) → NoNewPages (cap_at t) (cap_at (clear_cap t pid slot).1)
unfolding clear_cap
clear_cap-NoNewPages t pid slot = write_slot-NoNewPages t pid slot none (λ id e. cc)

-- What is copied is no page.
cap_duplicate-copies :
    (t : ProcessTable) (pid from to id : ℕ)
    → is_ok (cap_duplicate t pid from to).0 ≡ true
    → cap_at t pid from ≢ some (page id)
unfolding cap_duplicate cap_at
cap_duplicate-copies t pid from to id h e = ground arith

pub cap_duplicate-NoNewPages :
    (t : ProcessTable) (pid from to : ℕ)
    → NoNewPages (cap_at t) (cap_at (cap_duplicate t pid from to).1)
cap_duplicate-NoNewPages t pid from to p s id e =
    ground (arith, cap_at-cap_duplicate t pid from to p s, cap_duplicate-copies t pid from to id)

pub insert-NoNewPages :
    (t : ProcessTable) (root : ℕ) → IsValid t → NoNewPages (cap_at t) (cap_at (insert t root).1)
unfolding cap_at fresh
insert-NoNewPages t root v p s id e = ground (arith, find-insert t root p (next_slot_in_range t v))
