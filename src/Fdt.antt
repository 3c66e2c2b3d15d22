-- ===== src/Fdt.antt =====
-- The device tree parser (kernel/src/fdt.rs): the board parameters, the table of reserved intervals and
-- the header. The memory is a function from addresses to bytes.
pub mod Bytes
pub mod Props
pub mod Walk
pub mod Merging
pub mod Reserved
pub mod Adding
pub mod Total
pub mod Local
pub mod Blob
pub mod Outcome
pub mod Board
use ignium.Base.{
  ℕ, zero, suc, ◌+◌, ◌-◌, ◌*◌, ◌%◌, Bool, true, false, ◌&&◌, ◌||◌, not, Option, none, some, List,
  [], ◌∷◌, ◌==◌, ltb, leb, if◌then◌else◌, update,
}

-- 2 ^ 64
abbrev pub word : ℕ
word = 18446744073709551616

-- `saturating_add`
unfoldable pub sat_add : ℕ → ℕ → ℕ
sat_add a b = if ltb (a + b) word then a + b else word - 1

-- `a.checked_add(b).is_none_or(|end| end > limit)`
unfoldable pub past_end : ℕ → ℕ → ℕ → Bool
past_end a b limit = leb word (a + b) || ltb limit (a + b)

unfoldable pub min : ℕ → ℕ → ℕ
min a b = if leb a b then a else b

unfoldable pub max : ℕ → ℕ → ℕ
max a b = if leb a b then b else a

-- An empty `isa_string` is the empty list of bytes.
pub record BoardParams : Type 0 where
  pub ram_start : ℕ
  pub ram_size : ℕ
  pub timebase_freq : ℕ
  pub uart_base : ℕ
  pub uart_clock : ℕ
  pub isa_string : List ℕ
  pub cpu_count : ℕ
  pub reserved : ℕ → ℕ × ℕ
  pub reserved_count : ℕ

abbrev pub empty : BoardParams
empty = record {
  ram_start = 0;
  ram_size = 0;
  timebase_freq = 0;
  uart_base = 0;
  uart_clock = 0;
  isa_string = [];
  cpu_count = 0;
  reserved = λ i. (0, 0);
  reserved_count = 0;
}

-- The length of the array `reserved`.
abbrev pub max_reserved : ℕ
max_reserved = 8

unfoldable pub end_of : ℕ × ℕ → ℕ
unfolding sat_add
end_of r = sat_add r.0 r.1

-- The local variables of `add_reserved` and the table that it changes.
pub record Merge : Type 0 where
  pub addr : ℕ
  pub size : ℕ
  pub end : ℕ
  pub entries : ℕ → ℕ × ℕ
  pub len : ℕ

-- `addr < r_end && end > r_addr`
unfoldable pub overlaps : Merge → ℕ × ℕ → Bool
unfolding end_of
overlaps m r = ltb m.addr (end_of r) && ltb r.0 m.end

-- Entry `i` joins the new interval, and the last entry takes its place.
unfoldable pub absorb : ℕ → Merge → Merge
unfolding end_of min max
absorb i m =
    let r = m.entries i in
    let addr = min m.addr r.0 in
    let end = max m.end (end_of r) in
    record {
      addr = addr;
      size = end - addr;
      end = end;
      entries = update m.entries i (m.entries (m.len - 1));
      len = m.len - 1;
    }

-- The loop over the entries. Each turn brings `i` and `len` nearer by one.
unfoldable pub merge_from : ℕ → ℕ → Merge → Merge
unfolding overlaps absorb
merge_from zero i m = m
merge_from (suc fuel) i m =
    let joined = merge_from fuel i (absorb i m) in
    let next = merge_from fuel (suc i) m in
    if not (ltb i m.len) then m else if overlaps m (m.entries i) then joined else next

unfoldable pub put_reserved : Merge → BoardParams → BoardParams
put_reserved m p =
    if ltb m.len max_reserved
    then record p { reserved = update m.entries m.len (m.addr, m.size); reserved_count = suc m.len }
    else record p { reserved = m.entries; reserved_count = m.len }

unfoldable pub merge_start : ℕ → ℕ → BoardParams → Merge
unfolding sat_add
merge_start addr size p = record {
  addr = addr;
  size = size;
  end = sat_add addr size;
  entries = p.reserved;
  len = p.reserved_count;
}

unfoldable pub add_reserved : ℕ → ℕ → BoardParams → BoardParams
unfolding merge_start merge_from put_reserved
add_reserved addr size p =
    if addr == 0 || size == 0
    then p
    else put_reserved (merge_from p.reserved_count 0 (merge_start addr size p)) p

unfoldable pub be32 : (ℕ → ℕ) → ℕ → ℕ
be32 mem addr = mem addr * 16777216 + mem (addr + 1) * 65536 + mem (addr + 2) * 256 + mem (addr + 3)

-- Two words, the high one first: `(hi as u64) << 32 | lo as u64`.
unfoldable pub be64 : (ℕ → ℕ) → ℕ → ℕ
unfolding be32
be64 mem addr = be32 mem addr * 4294967296 + be32 mem (addr + 4)

pub record Fdt : Type 0 where
  pub base : ℕ
  pub total_size : ℕ
  pub off_struct : ℕ
  pub off_strings : ℕ
  pub off_rsvmap : ℕ
  pub size_struct : ℕ
  pub size_strings : ℕ
  pub fdt_addr : ℕ

abbrev pub fdt_magic : ℕ
fdt_magic = 0xD00DFEED

-- `size_of::<FdtHeader>()`, and the offsets of its fields in `new`.
abbrev pub header_size : ℕ
header_size = 40

-- 2 ^ 56 - 1
abbrev pub max_phys : ℕ
max_phys = 72057594037927935

unfoldable pub header_at : (ℕ → ℕ) → ℕ → Fdt
unfolding be32
header_at mem fdt = record {
  base = fdt;
  total_size = be32 mem (fdt + 4);
  off_struct = be32 mem (fdt + 8);
  off_strings = be32 mem (fdt + 12);
  off_rsvmap = be32 mem (fdt + 16);
  size_struct = be32 mem (fdt + 36);
  size_strings = be32 mem (fdt + 32);
  fdt_addr = fdt;
}

unfoldable pub header_fits : Fdt → Bool
unfolding past_end sat_add
header_fits f =
    not (
      ltb f.total_size header_size
      || ltb 16777216 f.total_size
      || past_end f.fdt_addr f.total_size max_phys)
    && not (
        ltb f.total_size (sat_add f.off_struct f.size_struct)
        || ltb f.total_size (sat_add f.off_strings f.size_strings)
        || past_end f.off_rsvmap 16 f.total_size)

unfoldable pub new : (ℕ → ℕ) → ℕ → Option Fdt
unfolding past_end be32 header_at header_fits
new mem fdt =
    let f = header_at mem fdt in
    if fdt == 0 || not (fdt % 8 == 0)
    then none
    else if past_end fdt header_size max_phys
    then none
    else if not (be32 mem fdt == fdt_magic)
    then none
    else if header_fits f
    then some f
    else none
