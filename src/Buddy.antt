-- ===== src/Buddy.antt =====
-- The building of the free lists of the physical memory allocator (kernel/src/mem.rs: `push` and
-- `carve`). The first word of each free page, which links a free list, is a function of the page.
pub mod Listed
pub mod Carve
pub mod Blocks
pub mod Stale
pub mod Chains
use ignium.Base.{
  ℕ, zero, suc, ◌+◌, ◌*◌, Bool, true, false, not, ◌&&◌, ◌||◌, Option, none, some, List, [], ◌∷◌,
  ltb, leb, if◌then◌else◌, update,
}

pub record PageMeta : Type 0 where
  pub order : ℕ
  pub used : Bool

pub record Buddy : Type 0 where
  pub base : ℕ
  pub real_count : ℕ
  pub page_count : ℕ
  pub meta : ℕ → PageMeta
  pub free_lists : ℕ → ℕ
  pub first_word : ℕ → ℕ

-- `1usize << order`
unfoldable pub block_size : ℕ → ℕ
block_size zero = 1
block_size (suc order) = 2 * block_size order

unfoldable pub push : ℕ → ℕ → Buddy → Buddy
push idx order b = record b {
  first_word = update b.first_word idx (b.free_lists order);
  free_lists = update b.free_lists order idx;
  meta = update b.meta idx (record { order = order; used = false });
}

-- A block that is never given out: `u8::MAX` for its order.
unfoldable pub mark : ℕ → Buddy → Buddy
mark idx b = record b { meta = update b.meta idx (record { order = 255; used = true }) }

-- The loop over the reserved intervals: `inside_any` and `overlap_any`.
unfoldable pub scan : ℕ → ℕ → List (ℕ × ℕ) → Bool → Bool × Bool
scan s e [] overlap = (false, overlap)
scan s e ((rs, re) ∷ rest) overlap =
    let found = scan s e rest (overlap || (ltb rs e && ltb s re)) in
    if leb rs s && leb e re then (true, overlap) else found

-- The tests of `carve`, with what its two recursive calls make of the state.
unfoldable pub carve_block : ℕ → ℕ → List (ℕ × ℕ) → Buddy → Option Buddy → Option Buddy
carve_block idx order reserved b halves =
    let e = idx + block_size order in
    let found = scan idx e reserved false in
    if leb b.real_count idx
    then some b
    else if ltb b.real_count e
    then halves
    else if not found.1
    then some (push idx order b)
    else if found.0
    then some (mark idx b)
    else halves

-- `none` is the panic of `order - 1` at order 0.
unfoldable pub carve : ℕ → ℕ → List (ℕ × ℕ) → Buddy → Option Buddy
unfolding carve_block
carve zero idx reserved b = carve_block idx 0 reserved b none
carve (suc order) idx reserved b =
    let first = carve order idx reserved b in
    carve_block idx (suc order) reserved b
      (elim first [ none ↦ none | some b' ↦ carve order (idx + block_size order) reserved b' ])
