-- ===== src/Fdt/Props.antt =====
-- What one property of the device tree sets (kernel/src/fdt.rs: `handle_prop`, `read_string`). A value
-- is named by the address of its first byte and its length; `core::str::from_utf8` is a test on bytes.
use ignium.Base.{
  ℕ, ◌+◌, ◌-◌, Bool, ◌&&◌, ◌||◌, not, Option, none, some, List, ◌==◌, ltb, leb, if◌then◌else◌,
  length,
}
use ignium.Fdt.{BoardParams, Fdt, be32, be64, sat_add}
use ignium.Fdt.Bytes.{
  codes, bytes_eq, starts_with, any_window, after_at, slice, until_zero, parse_hex,
}

unfoldable pub is_memory : List ℕ → Bool
unfolding bytes_eq starts_with
is_memory node = bytes_eq node (codes "memory") || starts_with (codes "memory@") node

unfoldable pub is_cpus : List ℕ → Bool
unfolding bytes_eq starts_with
is_cpus node = bytes_eq node (codes "cpus") || starts_with (codes "cpus@") node

unfoldable pub is_cpu : List ℕ → Bool
unfolding starts_with
is_cpu node = starts_with (codes "cpu@") node

unfoldable pub is_uart : List ℕ → Bool
unfolding bytes_eq starts_with
is_uart node =
    bytes_eq node (codes "uart")
    || starts_with (codes "uart@") node
    || bytes_eq node (codes "serial")
    || starts_with (codes "serial@") node

-- The address after the `@` in the name of the node.
unfoldable pub uart_of_name : List ℕ → BoardParams → BoardParams
unfolding after_at parse_hex
uart_of_name node p = elim (after_at node) [
  | none ↦ p
  | some digits ↦ elim (parse_hex digits) [ none ↦ p | some addr ↦ record p { uart_base = addr } ]
]

unfoldable pub is_ns16550 : List ℕ → Bool
unfolding any_window
is_ns16550 compat = any_window (codes "ns16550") compat || any_window (codes "ns16550a") compat

module _ (mem : ℕ → ℕ) where
  unfoldable pub set_memory : ℕ → ℕ → BoardParams → BoardParams
  unfolding be32 be64
  set_memory val prop_len p =
      if leb 16 prop_len
      then record p { ram_start = be64 mem val; ram_size = be64 mem (val + 8) }
      else if leb 8 prop_len
      then record p { ram_start = be32 mem val; ram_size = be32 mem (val + 4) }
      else p

  unfoldable pub set_timebase : ℕ → ℕ → BoardParams → BoardParams
  unfolding be32
  set_timebase val prop_len p =
      if leb 4 prop_len then record p { timebase_freq = be32 mem val } else p

  unfoldable pub set_uart_clock : ℕ → ℕ → BoardParams → BoardParams
  unfolding be32
  set_uart_clock val prop_len p =
      if leb 4 prop_len then record p { uart_clock = be32 mem val } else p

  unfoldable pub set_compatible : List ℕ → ℕ → ℕ → BoardParams → BoardParams
  unfolding is_uart slice is_ns16550 uart_of_name
  set_compatible node val prop_len p =
      let named = uart_of_name node p in
      if is_uart node && p.uart_base == 0
      then if is_ns16550 (slice mem val prop_len) then named else p
      else p

  unfoldable pub set_uart_base : ℕ → BoardParams → BoardParams
  set_uart_base addr p = if not (addr == 0) then record p { uart_base = addr } else p

  unfoldable pub set_uart_reg : ℕ → ℕ → BoardParams → BoardParams
  unfolding be32 be64 set_uart_base
  set_uart_reg val prop_len p =
      if leb 8 prop_len
      then set_uart_base (be64 mem val) p
      else if leb 4 prop_len
      then set_uart_base (be32 mem val) p
      else p

-- `match name { Some(n) => n, None => return }`
abbrev pub with_name : Option (List ℕ) → BoardParams → (List ℕ → BoardParams) → BoardParams
with_name none p rest = p
with_name (some name) p rest = rest name

module _ (is_utf8 : List ℕ → Bool) (mem : ℕ → ℕ) where
  -- The counted node, and the text up to the first zero if it is the first such text.
  unfoldable pub set_isa : ℕ → ℕ → BoardParams → BoardParams
  unfolding sat_add until_zero
  set_isa val prop_len p =
      let counted = record p { cpu_count = sat_add p.cpu_count 1 } in
      let text = until_zero mem val prop_len in
      if not (length p.isa_string == 0)
      then counted
      else if ltb 0 prop_len && ltb prop_len 128
      then if ltb 0 (length text) && is_utf8 text
        then record counted { isa_string = text }
        else counted
      else counted

  unfoldable pub read_string : Fdt → ℕ → Option (List ℕ)
  unfolding until_zero
  read_string f offset =
      let text = until_zero mem (f.base + (f.off_strings + offset)) (f.size_strings - offset) in
      if leb f.size_strings offset
      then none
      else if length text == 0
      then none
      else if is_utf8 text
      then some text
      else none

  -- The arms of the match, in their order, each with its guard.
  unfoldable pub set_prop : List ℕ → List ℕ → ℕ → ℕ → BoardParams → BoardParams
  unfolding bytes_eq is_memory is_cpus is_cpu is_uart set_memory set_timebase set_uart_clock
      set_compatible set_uart_reg set_isa
  set_prop name node val prop_len p =
      if bytes_eq name (codes "reg") && is_memory node
      then set_memory mem val prop_len p
      else if bytes_eq name (codes "timebase-frequency") && is_cpus node
      then set_timebase mem val prop_len p
      else if bytes_eq name (codes "clock-frequency") && (is_uart node && p.uart_clock == 0)
      then set_uart_clock mem val prop_len p
      else if bytes_eq name (codes "compatible")
      then set_compatible mem node val prop_len p
      else if bytes_eq name (codes "reg") && (is_uart node && p.uart_base == 0)
      then set_uart_reg mem val prop_len p
      else if bytes_eq name (codes "riscv,isa") && is_cpu node
      then set_isa val prop_len p
      else p

  unfoldable pub handle_prop : Fdt → List ℕ → ℕ → ℕ → ℕ → BoardParams → BoardParams
  unfolding read_string set_prop
  handle_prop f node name_off val prop_len p =
      with_name (read_string f name_off) p (λ name. set_prop name node val prop_len p)
