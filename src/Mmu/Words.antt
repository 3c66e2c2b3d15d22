-- ===== src/Mmu/Words.antt =====
-- The words of a page table entry (kernel/src/mmu.rs).
use ignium.Base.{ℕ, ◌%◌, ◌<◌, ◌≡◌, arith, true, false}
use ignium.Base.Bits.{bit_or-flags}
use ignium.Mmu.{ppn, pte, is_valid, is_leaf, table_of}

-- An entry that points to a table.
pub is_valid-table : (page : ℕ) → is_valid (pte page 1) ≡ true
unfolding is_valid pte ppn
is_valid-table page = ground (arith, bit_or-flags (ppn page) 1)

pub is_leaf-table : (page : ℕ) → is_leaf (pte page 1) ≡ false
unfolding is_leaf pte ppn
is_leaf-table page = ground (arith, bit_or-flags (ppn page) 1)

-- 2 ^ 56
abbrev pub paddr_limit : ℕ
paddr_limit = 72057594037927936

pub table_of-pte :
    (paddr flags : ℕ)
    → paddr % 4096 ≡ 0
    → paddr < paddr_limit
    → flags < 1024
    → table_of (pte paddr flags) ≡ paddr
unfolding table_of pte ppn
table_of-pte paddr flags a b c = omega (arith, a, b, c, bit_or-flags (ppn paddr) flags c)
