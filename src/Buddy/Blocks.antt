-- ===== src/Buddy/Blocks.antt =====
-- Taking and giving back blocks (kernel/src/mem.rs: `pop`, `alloc`, `free`, `unlink`). The outer `none`
-- is a panic: a free list with a page out of range. `idx ^ (1 << order)` is written for an index that is
-- a multiple of the block's size, which `free` tests first.
use ignium.Base.{
  ℕ, zero, suc, ◌+◌, ◌-◌, ◌*◌, ◌/◌, ◌%◌, Bool, true, false, not, ◌&&◌, ◌||◌, Option, none, some,
  ltb, leb, ◌==◌, if◌then◌else◌, update,
}
use ignium.Abi.{usize_max}
use ignium.Buddy.{Buddy, block_size, push}

abbrev pub max_order : ℕ
max_order = 12

unfoldable pub pop : ℕ → Buddy → Option (Option ℕ × Buddy)
pop order b =
    let head = b.free_lists order in
    if head == usize_max
    then some (none, b)
    else if ltb head b.page_count
    then some (some head, record b { free_lists = update b.free_lists order (b.first_word head) })
    else none

-- The first list that is not empty, of the `n` from `order` up.
unfoldable pub find_block : ℕ → ℕ → Buddy → Option (Option (ℕ × ℕ) × Buddy)
find_block zero order b = some (none, b)
find_block (suc n) order b =
    let rest = find_block n (suc order) b in
    elim (pop order b) [
      | none ↦ none
      | some r ↦ elim r.0 [ none ↦ rest | some idx ↦ some (some (idx, order), r.1) ]
    ]

-- The upper halves go to the lists below, down from `order + n`.
unfoldable pub split : ℕ → ℕ → ℕ → Buddy → Buddy
split zero idx order b = b
split (suc n) idx order b = split n idx order (push (idx + block_size (order + n)) (order + n) b)

unfoldable pub block_addr : ℕ → Buddy → ℕ
block_addr idx b = b.base + idx * 4096

-- The inner `none` is no memory. A block is marked at its first page only.
unfoldable pub alloc_block : ℕ → Buddy → Option (Option ℕ × Buddy)
alloc_block order b =
    let found = find_block (suc max_order - order) order b in
    if leb order max_order
    then elim found [
      | none ↦ none
      | some r ↦ elim r.0 [
        | none ↦ some (none, r.1)
        | some at ↦
            let b1 = split (at.1 - order) at.0 order r.1 in
            some (
              some (block_addr at.0 b1),
              record b1 { meta = update b1.meta at.0 (record { order = order; used = true }) },
            )
      ]
    ]
    else some (none, b)

-- `unlink`: the list from `cur`, for `n` steps; `prev` is the page before.
unfoldable pub unlink_from : ℕ → ℕ → ℕ → ℕ → ℕ → Buddy → Option Buddy
unlink_from zero target order prev cur b = none
unlink_from (suc n) target order prev cur b =
    let next = b.first_word cur in
    let rest = unlink_from n target order cur next b in
    if cur == usize_max
    then some b
    else if not (ltb cur b.page_count)
    then none
    else if not (cur == target)
    then rest
    else if prev == usize_max
    then some (record b { free_lists = update b.free_lists order next })
    else some (record b { first_word = update b.first_word prev next })

-- A list without a cycle has no more pages than there are.
unfoldable pub unlink : ℕ → ℕ → Buddy → Option Buddy
unlink target order b = unlink_from (b.page_count + 1) target order usize_max (b.free_lists order) b

unfoldable pub buddy_of : ℕ → ℕ → ℕ
buddy_of idx order =
    let size = block_size order in if (idx / size) % 2 == 0 then idx + size else idx - size

-- The loop that merges, for `n` orders from `order` up.
unfoldable pub merge : ℕ → ℕ → ℕ → Buddy → Option Buddy
merge zero idx order b = some (push idx order b)
merge (suc n) idx order b =
    let buddy = buddy_of idx order in
    let lower = if ltb buddy idx then buddy else idx in
    if ltb b.page_count (buddy + block_size order)
    then some (push idx order b)
    else if (b.meta buddy).used || not ((b.meta buddy).order == order)
    then some (push idx order b)
    else elim (unlink buddy order b) [ none ↦ none | some b' ↦ merge n lower (suc order) b' ]

unfoldable pub block_index : ℕ → Buddy → ℕ
block_index addr b = (addr - b.base) / 4096

-- The tests of `free`.
unfoldable pub accepts : ℕ → Buddy → Bool
accepts addr b =
    let idx = block_index addr b in
    let order = (b.meta idx).order in
    leb b.base addr
    && (ltb addr (b.base + b.real_count * 4096) && addr % 4096 == 0)
    && (leb order max_order && ((b.meta idx).used && idx % block_size order == 0))

unfoldable pub free : ℕ → Buddy → Option (Bool × Buddy)
free addr b =
    let idx = block_index addr b in
    let order = (b.meta idx).order in
    let merged = merge (max_order - order) idx order b in
    if accepts addr b
    then elim merged [ none ↦ none | some b' ↦ some (true, b') ]
    else some (false, b)
