-- ===== src/Fdt/Board.antt =====
-- What `Fdt::parse` (kernel/src/fdt.rs) returns for a header that `Fdt::new` has checked.
use ignium.Base.{
  ℕ, zero, suc, ◌+◌, ◌≤◌, ◌<◌, ◌≡◌, refl, ◌∙◌, Bool, true, false, ◌&&◌, Option, none, some, List,
  ◌==◌, leb, if◌then◌else◌, arith, is_some,
}
use ignium.Fdt.{
  BoardParams, Fdt, be32, be64, past_end, add_reserved, sat_add, empty, header_fits, word, end_of,
  max_phys,
}
use ignium.Fdt.Walk.{
  Place, Turn, onward, stop, reserve_map, take_token, continue, walk, and_then, struct_end, at_root,
  parse,
}
use ignium.Fdt.Reserved.{IsTable}
use ignium.Fdt.Adding.{Added-exact, add_reserved-Added}
use ignium.Fdt.Total.{parse-total}
use ignium.Fdt.Outcome.{Guards, Holds, TurnHolds, add_reserved-Holds, take_token-Holds}

module _ (lo hi : ℕ) where
  abbrev LoopHolds : Option BoardParams → Type 0
  LoopHolds none = Unit
  LoopHolds (some p) = Holds lo hi p

  LoopHolds-if :
      (b : Bool) (s t : Option BoardParams)
      → LoopHolds s
      → LoopHolds t
      → LoopHolds (if b then s else t)
  LoopHolds-if true s t h g = h
  LoopHolds-if false s t h g = g

  module _ (is_utf8 : List ℕ → Bool) (mem : ℕ → ℕ) (f : Fdt) where
    continue-Holds :
        (t : Turn) (rest : Place → Option BoardParams)
        → TurnHolds lo hi t
        → ((w : Place) → Holds lo hi w.params → LoopHolds (rest w))
        → LoopHolds (continue t rest)
    continue-Holds (onward w) rest h g = g w h
    continue-Holds (stop p) rest h g = h

    walk-Holds :
        (end n : ℕ) (w : Place) → Holds lo hi w.params → LoopHolds (walk is_utf8 mem f end n w)
    unfolding walk
    walk-Holds end zero w h = tt
    walk-Holds end (suc n) w h =
        let w' = record w { pos = w.pos + 4 } in
        let t = take_token is_utf8 mem f end (be32 mem (f.base + w.pos)) w' in
        LoopHolds-if (leb (w.pos + 4) end) (continue t (walk is_utf8 mem f end n)) (some w.params)
          (continue-Holds t _
            (take_token-Holds lo hi is_utf8 mem f end (be32 mem (f.base + w.pos)) w' h)
            (walk-Holds end n))
          h

    -- The memory holds bytes.
    module _ (bytes : (a : ℕ) → mem a < 256) where
      be64_small : (a : ℕ) → be64 mem a < word
      unfolding be64 be32
      be64_small a = omega (
        arith,
        bytes a,
        bytes (a + 1),
        bytes (a + 2),
        bytes (a + 3),
        bytes (a + 4),
        bytes (a + 4 + 1),
        bytes (a + 4 + 2),
        bytes (a + 4 + 3),
      )

      reserve_map-Holds :
          (n off : ℕ) (p : BoardParams) → Holds lo hi p → LoopHolds (reserve_map mem f n off p)
      unfolding reserve_map
      reserve_map-Holds zero off p h = tt
      reserve_map-Holds (suc n) off p h =
          let addr = be64 mem (f.base + off) in
          let size = be64 mem (f.base + off + 8) in
          let next = add_reserved addr size p in
          LoopHolds-if (past_end off 16 f.total_size) (some p) _ h (
            LoopHolds-if (addr == 0 && size == 0) (some p) _ h (
              reserve_map-Holds n (off + 16) next
                (add_reserved-Holds lo hi addr size p (be64_small (f.base + off)) h)))

  and_then-Holds :
      (o : Option BoardParams) (g : BoardParams → Option BoardParams)
      → LoopHolds o
      → ((p : BoardParams) → Holds lo hi p → LoopHolds (g p))
      → LoopHolds (and_then o g)
  and_then-Holds none g h k = tt
  and_then-Holds (some p) g h k = k p h

  returned :
      (o : Option BoardParams)
      → is_some o ≡ true
      → LoopHolds o
      → (r : BoardParams) × ((o ≡ some r) × Guards lo hi r.reserved r.reserved_count)
  returned none h g = ground (arith, h)
  returned (some r) h g = (r, (refl, g.guards))

-- The first entry that the parser makes: the blob itself.
own-Holds :
    (addr size : ℕ)
    → 0 < addr
    → addr + size ≤ max_phys
    → Holds addr (addr + size) (add_reserved addr size empty)
own-Holds addr size a h =
    let none_yet : IsTable empty.reserved 0 = record {
      small = λ i k. elim k [ ];
      apart = λ i j k. elim k [ ];
    } in
    let r = add_reserved-Added addr size empty (omega (arith, h)) (omega arith) none_yet in
    record {
      guards = record {
        bounded = r.bounded;
        table = r.table;
        covered = λ x l k.
            Added-exact addr size empty _ r (omega arith) x
            ∙ unfold end_of sat_add in ground (arith, a, l, k, h);
      };
    }

-- Over a memory of bytes, for a header that the checks of new accept and that does not stand at
-- the address 0, parse returns board parameters: at most eight reserved intervals, of which no
-- two have an address in common, and which cover every address of the device tree itself.
pub parse-Guards :
    (is_utf8 : List ℕ → Bool) (mem : ℕ → ℕ) (f : Fdt)
    → ((a : ℕ) → mem a < 256)
    → 0 < f.fdt_addr
    → header_fits f ≡ true
    → (r : BoardParams) × ((parse is_utf8 mem f ≡ some r)
        × Guards f.fdt_addr (f.fdt_addr + f.total_size) r.reserved r.reserved_count)
parse-Guards is_utf8 mem f bytes a h =
    let lo = f.fdt_addr in
    let hi = f.fdt_addr + f.total_size in
    let fits : hi ≤ max_phys = unfold header_fits past_end in ground (arith, h) in
    let own = add_reserved f.fdt_addr f.total_size empty in
    returned lo hi (parse is_utf8 mem f) (parse-total is_utf8 mem f) (
      unfold parse at_root in
      and_then-Holds lo hi _ _
        (reserve_map-Holds lo hi is_utf8 mem f bytes (suc f.total_size) f.off_rsvmap own
          (own-Holds f.fdt_addr f.total_size a fits))
        (λ p g.
          walk-Holds lo hi is_utf8 mem f (struct_end f) (suc (struct_end f)) (at_root f p)
            (record { guards = g.guards })))
