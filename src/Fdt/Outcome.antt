-- ===== src/Fdt/Outcome.antt =====
-- The table of reserved intervals that `Fdt::parse` (kernel/src/fdt.rs) returns.
use ignium.Base.{
  ℕ, ◌+◌, ◌≤◌, ◌<◌, ◌≡◌, refl, Bool, true, false, ◌&&◌, not, Option, none, some, List, ◌==◌, ltb,
  if◌then◌else◌, arith,
}
use ignium.Fdt.{BoardParams, Fdt, be32, past_end, add_reserved, word, max_reserved}
use ignium.Fdt.Bytes.{codes, bytes_eq}
use ignium.Fdt.Props.{
  is_memory, is_cpus, is_uart, is_cpu, set_memory, set_timebase, set_uart_clock, uart_of_name,
  set_compatible, set_uart_base, set_uart_reg, set_isa, read_string, set_prop, with_name,
  handle_prop,
}
use ignium.Fdt.Walk.{Place, Turn, onward, stop, align4, begin_node, end_node, read_prop, take_token}
use ignium.Fdt.Merging.{covers}
use ignium.Fdt.Reserved.{IsTable}
use ignium.Fdt.Adding.{Added-kept, add_reserved-Added}

-- Entries that stay apart and cover the addresses from `lo` up to `hi`.
pub record Guards (lo hi : ℕ) (e : ℕ → ℕ × ℕ) (n : ℕ) : Type 0 where
  pub bounded : n ≤ max_reserved
  pub table : IsTable e n
  pub covered : (x : ℕ) → lo ≤ x → x < hi → covers e n x ≡ true

-- The table is the same.
abbrev Same : BoardParams → BoardParams → Type 0
Same p q = (q.reserved ≡ p.reserved) × (q.reserved_count ≡ p.reserved_count)

Same-if : (b : Bool) (p q r : BoardParams) → Same p q → Same p r → Same p (if b then q else r)
Same-if true p q r h g = h
Same-if false p q r h g = g

uart_of_name-Same : (node : List ℕ) (p : BoardParams) → Same p (uart_of_name node p)
unfolding uart_of_name
uart_of_name-Same node p = ground arith

module _ (is_utf8 : List ℕ → Bool) (mem : ℕ → ℕ) (val n : ℕ) (p : BoardParams) where
  set_memory-Same : Same p (set_memory mem val n p)
  unfolding set_memory
  set_memory-Same = ground arith

  set_timebase-Same : Same p (set_timebase mem val n p)
  unfolding set_timebase
  set_timebase-Same = ground arith

  set_uart_clock-Same : Same p (set_uart_clock mem val n p)
  unfolding set_uart_clock
  set_uart_clock-Same = ground arith

  set_uart_reg-Same : Same p (set_uart_reg mem val n p)
  unfolding set_uart_reg set_uart_base
  set_uart_reg-Same = ground arith

  set_isa-Same : Same p (set_isa is_utf8 mem val n p)
  unfolding set_isa
  set_isa-Same = ground arith

  set_compatible-Same : (node : List ℕ) → Same p (set_compatible mem node val n p)
  unfolding set_compatible
  set_compatible-Same node = ground (arith, uart_of_name-Same node p)

set_prop-Same :
    (is_utf8 : List ℕ → Bool) (mem : ℕ → ℕ) (name node : List ℕ) (val n : ℕ) (p : BoardParams)
    → Same p (set_prop is_utf8 mem name node val n p)
unfolding set_prop
set_prop-Same is_utf8 mem name node val n p =
    Same-if (bytes_eq name (codes "reg") && is_memory node) p _ _
      (set_memory-Same is_utf8 mem val n p)
      (Same-if (bytes_eq name (codes "timebase-frequency") && is_cpus node) p _ _
        (set_timebase-Same is_utf8 mem val n p)
        (Same-if (bytes_eq name (codes "clock-frequency") && (is_uart node && p.uart_clock == 0)) p
          _ _ (set_uart_clock-Same is_utf8 mem val n p)
          (Same-if (bytes_eq name (codes "compatible")) p _ _
            (set_compatible-Same is_utf8 mem val n p node)
            (Same-if (bytes_eq name (codes "reg") && (is_uart node && p.uart_base == 0)) p _ _
              (set_uart_reg-Same is_utf8 mem val n p)
              (Same-if (bytes_eq name (codes "riscv,isa") && is_cpu node) p _ _
                (set_isa-Same is_utf8 mem val n p) (refl, refl))))))

module _ (lo hi : ℕ) where
  -- What the properties of the tree leave alone.
  pub record Holds (p : BoardParams) : Type 0 where
    pub guards : Guards lo hi p.reserved p.reserved_count

  abbrev pub TurnHolds : Turn → Type 0
  TurnHolds (onward w) = Holds w.params
  TurnHolds (stop p) = Holds p

  Holds-if : (b : Bool) (p q : BoardParams) → Holds p → Holds q → Holds (if b then p else q)
  Holds-if true p q h g = h
  Holds-if false p q h g = g

  TurnHolds-if :
      (b : Bool) (s t : Turn) → TurnHolds s → TurnHolds t → TurnHolds (if b then s else t)
  TurnHolds-if true s t h g = h
  TurnHolds-if false s t h g = g

  pub add_reserved-Holds :
      (addr size : ℕ) (p : BoardParams) → addr < word → Holds p → Holds (add_reserved addr size p)
  add_reserved-Holds addr size p a h =
      let g = h.guards in
      let r = add_reserved-Added addr size p a g.bounded g.table in
      record {
        guards = record {
          bounded = r.bounded;
          table = r.table;
          covered = λ x l k. Added-kept addr size p _ r x (g.covered x l k);
        };
      }

  module _ (is_utf8 : List ℕ → Bool) (mem : ℕ → ℕ) where
    set_prop-Holds :
        (name node : List ℕ) (val n : ℕ) (p : BoardParams)
        → Holds p
        → Holds (set_prop is_utf8 mem name node val n p)
    set_prop-Holds name node val n p h =
        let same = set_prop-Same is_utf8 mem name node val n p in
        record { guards = rw (same.0, same.1) h.guards }

    with_name-Holds :
        (o : Option (List ℕ)) (p : BoardParams) (g : List ℕ → BoardParams)
        → Holds p
        → ((name : List ℕ) → Holds (g name))
        → Holds (with_name o p g)
    with_name-Holds none p g h k = h
    with_name-Holds (some name) p g h k = k name

    read_prop-Holds :
        (f : Fdt) (end : ℕ) (w : Place) → Holds w.params → TurnHolds (read_prop is_utf8 mem f end w)
    unfolding read_prop handle_prop
    read_prop-Holds f end w h =
        let n = be32 mem (f.base + w.pos) in
        let name_off = be32 mem (f.base + w.pos + 4) in
        let val = f.base + (w.pos + 8) in
        TurnHolds-if (ltb end (w.pos + 8)) _ _ h (
          TurnHolds-if (past_end (w.pos + 8) (align4 n) end) _ _ h (
            Holds-if (not w.depth_exceeded) _ _
              (with_name-Holds (read_string is_utf8 mem f name_off) w.params _ h
                (λ name. set_prop-Holds name w.node val n w.params h))
              h))

    pub take_token-Holds :
        (f : Fdt) (end token : ℕ) (w : Place)
        → Holds w.params
        → TurnHolds (take_token is_utf8 mem f end token w)
    unfolding take_token begin_node end_node
    take_token-Holds f end token w h = TurnHolds-if (token == 1) _ _ h (
        TurnHolds-if (token == 2) _ _ h (
          TurnHolds-if (token == 3) _ _ (read_prop-Holds f end w h)
            (TurnHolds-if (token == 4) _ (stop w.params) h h)))
