-- ===== src/Elf.antt =====
-- The parser of user programs (kernel/src/elf.rs: `parse`), over a list of bytes. A read out of bounds
-- and an addition that overflows end in `panic`, as they do in the source.
pub mod Sound
pub mod Total
use ignium.Abi.{user_va_limit}
use ignium.Base.{
  ℕ, zero, suc, ◌+◌, ◌-◌, ◌*◌, ◌/◌, ◌%◌, Bool, true, false, not, Option, none, some, List, [], ◌∷◌,
  Result, ok, err, or_err, ◌==◌, ltb, leb, if◌then◌else◌, length, get_elem?,
}
use ignium.Base.Checked.{◌>>=◌, ◌>>◌, refuse}

pub data ElfError : Type 0 where
  truncated bad_magic not64 not_exec not_riscv bad_segment overlap address_too_high : ElfError
  no_memory map_failed bad_process : ElfError

-- What stops the parser: a panic, or an error that it returns.
pub data Fault : Type 0 where
  panic : Fault
  elf : ElfError → Fault

pub record Segment : Type 0 where
  pub vaddr : ℕ
  pub offset : ℕ
  pub filesz : ℕ
  pub memsz : ℕ
  pub flags : ℕ

pub record ElfInfo : Type 0 where
  pub entry : ℕ
  pub segments : List Segment

abbrev pub word_limit : ℕ
word_limit = 18446744073709551616

-- `a.checked_add(b)`, `a.checked_mul(b)`
unfoldable pub checked : ℕ → Option ℕ
checked n = if ltb n word_limit then some n else none

abbrev pub align_down : ℕ → ℕ
align_down v = v / 4096 * 4096

abbrev pub align_up : ℕ → ℕ
align_up v = (v + 4095) / 4096 * 4096

-- `bytes[i]`
unfoldable pub byte : List ℕ → ℕ → Result ℕ Fault
byte bytes i = or_err (get_elem? bytes i) panic

-- `from_le_bytes` of `n` bytes.
unfoldable pub le : List ℕ → ℕ → ℕ → Result ℕ Fault
unfolding byte
le bytes off zero = ok 0
le bytes off (suc n) = do b ← byte bytes off; rest ← le bytes (suc off) n; ok (b + 256 * rest)

-- `&bytes[off..off + 4] == magic`
unfoldable pub same_bytes : List ℕ → ℕ → List ℕ → Result Bool Fault
same_bytes bytes off [] = ok true
same_bytes bytes off (m ∷ ms) = do
  b ← byte bytes off
  rest ← same_bytes bytes (suc off) ms
  ok (if b == m then rest else false)

-- `a.checked_add(b).is_none_or(|end| end > limit)`
unfoldable pub exceeds : ℕ → ℕ → ℕ → Bool
unfolding checked
exceeds a b limit = elim (checked (a + b)) [ none ↦ true | some end ↦ ltb limit end ]

-- One program header of type `PT_LOAD`.
unfoldable pub load_segment : List ℕ → ℕ → Result Segment Fault
load_segment bytes off = do
  flags ← le bytes (off + 4) 4
  p_offset ← le bytes (off + 8) 8
  p_vaddr ← le bytes (off + 16) 8
  p_filesz ← le bytes (off + 32) 8
  p_memsz ← le bytes (off + 40) 8
  refuse (leb user_va_limit p_vaddr) (elf address_too_high)
  refuse (exceeds p_vaddr p_memsz user_va_limit) (elf address_too_high)
  refuse (ltb p_memsz p_filesz) (elf bad_segment)
  refuse (exceeds p_offset p_filesz (length bytes)) (elf truncated)
  refuse (not (p_vaddr % 4096 == p_offset % 4096)) (elf bad_segment)
  ok record {
    vaddr = p_vaddr;
    offset = p_offset;
    filesz = p_filesz;
    memsz = p_memsz;
    flags = flags;
  }

-- `segments.push(..)`, or `continue` for another type.
abbrev pub push_segment : Option Segment → List Segment → List Segment
push_segment none ss = ss
push_segment (some s) ss = s ∷ ss

unfoldable pub read_header : List ℕ → ℕ → Result (Option Segment) Fault
unfolding load_segment
read_header bytes off = do
  p_type ← le bytes off 4
  if not (p_type == 1) then ok none else (load_segment bytes off >>= λ s. ok (some s))

-- The loop over the program headers from the `i`th, `n` of them.
unfoldable pub read_headers : List ℕ → ℕ → ℕ → ℕ → Result (List Segment) Fault
unfolding read_header
read_headers bytes phoff i zero = ok []
read_headers bytes phoff i (suc n) = do
  off ← or_err (checked (phoff + i * 56)) panic
  s ← read_header bytes off
  rest ← read_headers bytes phoff (suc i) n
  ok (push_segment s rest)

-- `segments.sort_by_key(|s| s.vaddr)`, which is stable.
unfoldable pub insert_segment : Segment → List Segment → List Segment
insert_segment s [] = s ∷ []
insert_segment s (x ∷ xs) =
    let rest = insert_segment s xs in if leb s.vaddr x.vaddr then s ∷ x ∷ xs else x ∷ rest

unfoldable pub sort_segments : List Segment → List Segment
unfolding insert_segment
sort_segments [] = []
sort_segments (s ∷ ss) = insert_segment s (sort_segments ss)

-- `align_up(a.vaddr + a.memsz, PAGE_SIZE)`
unfoldable pub page_end : Segment → Result ℕ Fault
page_end a = do
  end ← or_err (checked (a.vaddr + a.memsz)) panic
  top ← or_err (checked (end + 4096)) panic
  ok (align_up end)

-- The loop over `windows(2)`.
unfoldable pub check_overlap : List Segment → Result (Unit {0}) Fault
unfolding page_end
check_overlap [] = ok tt
check_overlap (a ∷ []) = ok tt
check_overlap (a ∷ b ∷ rest) = do
  a_end ← page_end a
  refuse (ltb (align_down b.vaddr) a_end) (elf overlap)
  check_overlap (b ∷ rest)

-- The program header table lies in the file.
unfoldable pub check_table : List ℕ → ℕ → ℕ → Result (Unit {0}) Fault
check_table bytes phoff phnum =
    if ltb 0 phnum
    then (do
      ph_bytes ← or_err (checked (phnum * 56)) (elf truncated)
      end ← or_err (checked (phoff + ph_bytes)) (elf truncated)
      refuse (ltb (length bytes) end) (elf truncated))
    else refuse (ltb (length bytes) phoff) (elf truncated)

unfoldable pub parse : List ℕ → Result ElfInfo Fault
unfolding check_table sort_segments check_overlap
parse bytes = do
  refuse (ltb (length bytes) 64) (elf truncated)
  magic ← same_bytes bytes 0 (0x7f ∷ 0x45 ∷ 0x4c ∷ 0x46 ∷ [])
  refuse (not magic) (elf bad_magic)
  class ← byte bytes 4
  refuse (not (class == 2)) (elf not64)
  etype ← le bytes 16 2
  refuse (not (etype == 2)) (elf not_exec)
  machine ← le bytes 18 2
  refuse (not (machine == 243)) (elf not_riscv)
  entry ← le bytes 24 8
  phoff ← le bytes 32 8
  phnum ← le bytes 56 2
  check_table bytes phoff phnum
  segments ← read_headers bytes phoff 0 phnum
  check_overlap (sort_segments segments)
  ok record { entry = entry; segments = sort_segments segments }
