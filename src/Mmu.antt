-- ===== src/Mmu.antt =====
-- The Sv39 page tables of kernel/src/mmu.rs. The memory is a function of a table's address and an index
-- in it; the page allocator is the list of the pages that it gives out. Flags are below 1024, so that
-- `|` with a page number is a sum.
pub mod Words
pub mod Tree
pub mod Mapping
use Prim.Native.Nat.{bit_or}
use ignium.Abi.{user_va_limit}
use ignium.Base.{
  ℕ, zero, suc, ◌+◌, ◌-◌, ◌*◌, ◌%◌, ◌/◌, ◌≤◌, ◌<◌, ◌≡◌, Bool, true, false, ◌&&◌, ◌||◌, Option, none,
  some, List, [], ◌∷◌, ◌++◌, ◌==◌, ltb, leb, if◌then◌else◌, not,
}

abbrev pub pte_v : ℕ
pte_v = 1

abbrev pub pte_u : ℕ
pte_u = 16

-- 2 ^ 44 page numbers.
abbrev pub ppn_limit : ℕ
ppn_limit = 17592186044416

unfoldable pub ppn : ℕ → ℕ
ppn paddr = (paddr / 4096) % ppn_limit

unfoldable pub pte : ℕ → ℕ → ℕ
unfolding ppn
pte paddr flags = bit_or (ppn paddr * 1024) flags

-- `entry & PTE_V`, `entry & (PTE_R | PTE_W | PTE_X)`, and the address in an entry.
unfoldable pub is_valid : ℕ → Bool
is_valid e = e % 2 == 1

unfoldable pub is_leaf : ℕ → Bool
is_leaf e = not ((e / 2) % 8 == 0)

unfoldable pub table_of : ℕ → ℕ
table_of e = (e / 1024) % ppn_limit * 4096

-- `(vaddr >> 30) & 0x1FF` and so on.
unfoldable pub l2 : ℕ → ℕ
l2 vaddr = (vaddr / 1073741824) % 512

unfoldable pub l1 : ℕ → ℕ
l1 vaddr = (vaddr / 2097152) % 512

unfoldable pub l0 : ℕ → ℕ
l0 vaddr = (vaddr / 4096) % 512

abbrev pub pte_leaf_rw : ℕ
pte_leaf_rw = 199

pub record Tables : Type 0 where
  pub mem : ℕ → ℕ → ℕ
  pub pages : List ℕ

unfoldable pub pte_write : ℕ → ℕ → ℕ → Tables → Tables
pte_write table idx value m = record m {
  mem = λ t i. if t == table && i == idx then value else m.mem t i;
}

unfoldable pub zero_page : ℕ → Tables → Tables
zero_page page m = record m { mem = λ t i. if t == page then 0 else m.mem t i }

-- `alloc_pages(0)` and `zero_page`, or `alloc_pages_zeroed(0)`.
unfoldable pub alloc_zeroed : Tables → Option ℕ × Tables
alloc_zeroed m = elim m.pages [
  | [] ↦ (none, m)
  | page ∷ rest ↦ (some page, zero_page page (record m { pages = rest }))
]

unfoldable pub ensure_table : ℕ → ℕ → Tables → Option ℕ × Tables
ensure_table parent idx m =
    let entry = m.mem parent idx in
    let r = alloc_zeroed m in
    if is_valid entry
    then if is_leaf entry then (none, m) else (some (table_of entry), m)
    else elim r.0 [
      | none ↦ (none, r.1)
      | some page ↦ (some page, pte_write parent idx (pte page pte_v) r.1)
    ]

-- The tables down to the last one; `none` is an error.
unfoldable pub last_table : ℕ → ℕ → Tables → Option ℕ × Tables
last_table root vaddr m =
    let r = ensure_table root (l2 vaddr) m in
    elim r.0 [ none ↦ (none, r.1) | some t ↦ ensure_table t (l1 vaddr) r.1 ]

unfoldable pub map_4k : ℕ → ℕ → ℕ → ℕ → Tables → Bool × Tables
map_4k root vaddr paddr flags m =
    let r = last_table root vaddr m in
    elim r.0 [ none ↦ (false, r.1) | some t ↦ (true, pte_write t (l0 vaddr) (pte paddr flags) r.1) ]

-- `flags | PTE_U`
unfoldable pub with_u : ℕ → ℕ
with_u flags = if (flags / 16) % 2 == 1 then flags else flags + pte_u

-- A page that is mapped already is refused.
unfoldable pub map_new : ℕ → ℕ → ℕ → ℕ → Tables → Bool × Tables
map_new root vaddr paddr flags m =
    let r = last_table root vaddr m in
    elim r.0 [
      | none ↦ (false, r.1)
      | some t ↦
          if is_valid (r.1.mem t (l0 vaddr))
          then (false, r.1)
          else (true, pte_write t (l0 vaddr) (pte paddr (with_u flags)) r.1)
    ]

-- `in_range` is `mem::page_in_range` of the address.
unfoldable pub map_user_page : (ℕ → Bool) → ℕ → ℕ → ℕ → ℕ → Tables → Bool × Tables
map_user_page in_range root vaddr paddr flags m =
    if not (ltb vaddr user_va_limit)
    then (false, m)
    else if not (paddr % 4096 == 0)
    then (false, m)
    else if not (in_range paddr)
    then (false, m)
    else map_new root vaddr paddr flags m

unfoldable pub map_device_page : ℕ → ℕ → ℕ → ℕ → Tables → Bool × Tables
map_device_page root vaddr paddr flags m =
    if not (ltb vaddr user_va_limit) || not (paddr % 4096 == 0)
    then (false, m)
    else map_new root vaddr paddr flags m

unfoldable pub map_super : ℕ → ℕ → ℕ → ℕ → Tables → Bool × Tables
map_super root vaddr paddr flags m =
    let r = ensure_table root (l2 vaddr) m in
    elim r.0 [ none ↦ (false, r.1) | some t ↦ (true, pte_write t (l1 vaddr) (pte paddr flags) r.1) ]

unfoldable pub leaf_pte : ℕ → ℕ → Tables → ℕ
leaf_pte root vaddr m =
    let e2 = m.mem root (l2 vaddr) in
    let e1 = m.mem (table_of e2) (l1 vaddr) in
    let e0 = m.mem (table_of e1) (l0 vaddr) in
    if not (is_valid e2)
    then 0
    else if is_leaf e2
    then e2
    else if not (is_valid e1)
    then 0
    else if is_leaf e1
    then e1
    else if not (is_valid e0)
    then 0
    else e0

unfoldable pub is_mapped : ℕ → ℕ → Tables → Bool
is_mapped root vaddr m = is_valid (leaf_pte root vaddr m)

unfoldable pub unmap_4k : ℕ → ℕ → Tables → Bool × Tables
unmap_4k root vaddr m =
    let r = last_table root vaddr m in
    if leaf_pte root vaddr m == 0
    then (true, m)
    else elim r.0 [ none ↦ (false, r.1) | some t ↦ (true, pte_write t (l0 vaddr) 0 r.1) ]

-- Entries `i` to `i + n` of the table that takes the place of a superpage.
unfoldable pub fill : ℕ → ℕ → ℕ → ℕ → ℕ → Tables → Tables
fill sub base_pa flags i zero m = m
fill sub base_pa flags i (suc n) m =
    fill sub base_pa flags (suc i) n (pte_write sub i (pte (base_pa + i * 4096) flags) m)

unfoldable pub split_superpage : ℕ → ℕ → Tables → Bool × Tables
split_superpage root vaddr m =
    let r = ensure_table root (l2 vaddr) m in
    elim r.0 [
      | none ↦ (false, r.1)
      | some t ↦
          let entry = r.1.mem t (l1 vaddr) in
          let a = alloc_zeroed r.1 in
          if not (is_valid entry)
          then (false, r.1)
          else if not (is_leaf entry)
          then (true, r.1)
          else elim a.0 [
            | none ↦ (false, a.1)
            | some sub ↦ (
              true,
              pte_write t (l1 vaddr) (pte sub pte_v) (
                  fill sub (table_of entry)
                    (entry % 1024 + entry / 18014398509481984 * 18014398509481984) 0 512 a.1),
            )
          ]
    ]

unfoldable pub unmap_kernel_4k : ℕ → ℕ → Tables → Bool × Tables
unmap_kernel_4k root vaddr m =
    let r = split_superpage root vaddr m in if r.0 then unmap_4k root vaddr r.1 else (false, r.1)

unfoldable pub map_kernel_4k : ℕ → ℕ → ℕ → ℕ → Tables → Bool × Tables
map_kernel_4k root vaddr paddr flags m =
    let r = split_superpage root vaddr m in
    if r.0 then map_4k root vaddr paddr flags r.1 else (false, r.1)

unfoldable pub remap_kernel_4k : ℕ → ℕ → Tables → Bool × Tables
remap_kernel_4k root vaddr m = map_kernel_4k root vaddr vaddr pte_leaf_rw m

-- `n` pages; a failure panics, so what is left then does not matter.
unfoldable pub map_region_4k : ℕ → ℕ → ℕ → ℕ → Tables → Option Tables
map_region_4k root vaddr zero flags m = some m
map_region_4k root vaddr (suc n) flags m =
    let r = map_4k root vaddr vaddr flags m in
    let rest = map_region_4k root (vaddr + 4096) n flags r.1 in if r.0 then rest else none
