-- ===== src/Heap.antt =====
-- The kernel heap (kernel/src/heap.rs): slots of eight sizes in slab pages, whole blocks for what is
-- larger. The memory is a function from addresses to words, and the header of a slab page stands in two
-- functions of the page. The page allocator (kernel/src/mem.rs) is an interface.
pub mod Sweep
pub mod Alloc
pub mod Blocks
pub mod Linked
pub mod Slots
pub mod Shape
pub mod Giving
pub mod Sweeping
pub mod Swept
pub mod Growing
pub mod Taking
pub mod Large
pub mod Pages
use ignium.Abi.{page_size}
use ignium.Base.{
  ℕ, zero, suc, ◌+◌, ◌-◌, ◌*◌, ◌/◌, ◌%◌, ◌≡◌, ◌≤◌, ◌<◌, Bool, true, false, ◌&&◌, ◌||◌, not, Option,
  none, some, ◌==◌, ltb, leb, if◌then◌else◌, update,
}

-- What the heap calls of the page allocator. The Boolean of `free_pages` is false for an error.
pub record PageAllocator : Type 1 where
  pub Store : Type 0
  pub alloc_pages : ℕ → Store → Option ℕ × Store
  pub free_pages : ℕ → Store → Bool × Store

-- The address of a page: aligned, not null, and below the half of the address space.
abbrev pub IsPage : ℕ → Type 0
IsPage p = (p % 4096 ≡ 0) × ((0 < p) × (p < 9223372036854775808))

-- A panic, a loop that has used up its fuel, or a result.
pub data Run {ℓ} (A : Type ℓ) : Type ℓ where
  done : A → Run A
  panic : Run A
  spent : Run A

infixl 5 ◌>>=◌
unfoldable pub ◌>>=◌ {ℓ κ} : {A : Type ℓ} {B : Type κ} → Run A → (A → Run B) → Run B
done a >>= f = f a
panic >>= f = panic
spent >>= f = spent

-- `Option::expect`
unfoldable pub expect {ℓ} : {A : Type ℓ} → Option A → Run A
expect none = panic
expect (some a) = done a

-- `SLAB_SIZES`
abbrev pub classes : ℕ
classes = 8

unfoldable pub slab_size : ℕ → ℕ
slab_size zero = 16
slab_size (suc idx) = 2 * slab_size idx

-- `NOT_SLAB`, and `usize::MAX` at the end of a free list.
abbrev pub not_slab : ℕ
not_slab = 255

abbrev pub sentinel : ℕ
sentinel = 18446744073709551615

-- The search for the first class, from `idx` on, that `size` fits.
unfoldable pub class_from : ℕ → ℕ → ℕ → Option ℕ
unfolding slab_size
class_from zero idx size = none
class_from (suc left) idx size =
    let rest = class_from left (suc idx) size in if leb size (slab_size idx) then some idx else rest

unfoldable pub class_index : ℕ → Option ℕ
unfolding class_from
class_index size = class_from classes 0 (if ltb size 8 then 8 else size)

-- A null page is 0.
pub record Heap (S : Type 0) : Type 0 where
  pub head : ℕ → ℕ
  pub next : ℕ → ℕ
  pub free_list : ℕ → ℕ
  pub word : ℕ → ℕ
  pub class_of : ℕ → ℕ
  pub base : ℕ
  pub bytes : ℕ
  pub store : S

-- `KernelHeap::new` and the tables before the first operation.
unfoldable pub at_boot : {S : Type 0} → S → Heap S
at_boot s = record {
  head = λ i. 0;
  next = λ p. 0;
  free_list = λ p. 0;
  word = λ a. 0;
  class_of = λ p. not_slab;
  base = 0;
  bytes = 0;
  store = s;
}

-- The bounds of the region that the page allocator has.
unfoldable pub init : {S : Type 0} → ℕ → ℕ → Heap S → Heap S
init base page_count h = record h { base = base; bytes = page_count * page_size }
