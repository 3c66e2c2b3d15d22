-- ===== src/Fdt/Total.antt =====
-- How far each turn of the loops of `Fdt::parse` (kernel/src/fdt.rs) moves the position.
use ignium.Base.{
  ℕ, zero, suc, ◌+◌, ◌-◌, ◌≤◌, ◌<◌, ◌≡◌, refl, Bool, true, false, Option, none, some, List, ◌==◌,
  ltb, leb, if◌then◌else◌, length, arith, inl, inr, Bool-cases, is_some,
}
use ignium.Fdt.{BoardParams, Fdt, be32, be64, past_end, add_reserved, empty}
use ignium.Fdt.Walk.{
  Place, max_name, Turn, onward, stop, align4, reserve_map, read_name, skip_name, begin_node,
  end_node, read_prop, take_token, continue, walk, and_then, struct_end, at_root, parse,
}

reserve_map-total :
    (mem : ℕ → ℕ) (f : Fdt) (n off : ℕ) (p : BoardParams)
    → f.total_size - off < n
    → is_some (reserve_map mem f n off p) ≡ true
unfolding reserve_map
reserve_map-total mem f zero off p h = elim h [ ]
reserve_map-total mem f (suc n) off p h =
    let addr = be64 mem (f.base + off) in
    let size = be64 mem (f.base + off + 8) in
    elim (Bool-cases (past_end off 16 f.total_size)) [
      | inl out ↦ rw out refl
      | inr fits ↦
          let room : off + 16 ≤ f.total_size = unfold past_end in ground (arith, fits) in
          ground (
            arith,
            reserve_map-total mem f n (off + 16) (add_reserved addr size p)
                (omega (arith, h, room)),
          )
    ]

align4-le : (n : ℕ) → n ≤ align4 n
unfolding align4
align4-le n = omega arith

read_name-le : (mem : ℕ → ℕ) (f : Fdt) (end n pos : ℕ) → pos ≤ (read_name mem f end n pos).1
unfolding read_name
read_name-le mem f end zero pos = omega arith
read_name-le mem f end (suc n) pos = ground (arith, read_name-le mem f end n (pos + 1))

skip_name-le : (mem : ℕ → ℕ) (f : Fdt) (n pos : ℕ) → pos ≤ skip_name mem f n pos
unfolding skip_name
skip_name-le mem f zero pos = omega arith
skip_name-le mem f (suc n) pos = ground (arith, skip_name-le mem f n (pos + 1))

if-le : (b : Bool) (n x y : ℕ) → n ≤ x → n ≤ y → n ≤ (if b then x else y)
if-le true n x y h g = h
if-le false n x y h g = g

begin_node-le : (mem : ℕ → ℕ) (f : Fdt) (end : ℕ) (w : Place) → w.pos ≤ (begin_node mem f end w).pos
unfolding begin_node
begin_node-le mem f end w =
    let read = read_name mem f end max_name w.pos in
    let skipped = skip_name-le mem f (end - read.1) read.1 in
    let named = read_name-le mem f end max_name w.pos in
    let after =
      if leb max_name (length read.0) then skip_name mem f (end - read.1) read.1 else read.1 + 1 in
    let further : w.pos ≤ after =
      if-le (leb max_name (length read.0)) w.pos _ (read.1 + 1) (omega (arith, skipped, named))
        (omega (arith, named)) in
    omega (arith, align4-le after, further)

-- A turn that goes on does not go back.
abbrev Moves : ℕ → Turn → Type 0
Moves pos (onward w) = pos ≤ w.pos
Moves pos (stop p) = Unit

Moves-if :
    (b : Bool) (pos : ℕ) (s t : Turn) → Moves pos s → Moves pos t → Moves pos (if b then s else t)
Moves-if true pos s t h g = h
Moves-if false pos s t h g = g

module _ (is_utf8 : List ℕ → Bool) (mem : ℕ → ℕ) (f : Fdt) (end : ℕ) where
  read_prop-Moves : (w : Place) → Moves w.pos (read_prop is_utf8 mem f end w)
  unfolding read_prop
  read_prop-Moves w =
      let padded = align4 (be32 mem (f.base + w.pos)) in
      Moves-if (ltb end (w.pos + 8)) w.pos _ _ tt
        (Moves-if (past_end (w.pos + 8) padded end) w.pos _ _ tt (omega arith))

  take_token-Moves : (token : ℕ) (w : Place) → Moves w.pos (take_token is_utf8 mem f end token w)
  unfolding take_token end_node
  take_token-Moves token w = Moves-if (token == 1) w.pos _ _ (begin_node-le mem f end w) (
      Moves-if (token == 2) w.pos _ _ (omega arith) (
        Moves-if (token == 3) w.pos _ _ (read_prop-Moves w)
          (Moves-if (token == 4) w.pos _ _ (omega arith) tt)))

  continue-total :
      (pos : ℕ) (t : Turn) (rest : Place → Option BoardParams)
      → Moves pos t
      → ((w : Place) → pos ≤ w.pos → is_some (rest w) ≡ true)
      → is_some (continue t rest) ≡ true
  continue-total pos (onward w) rest m h = h w m
  continue-total pos (stop p) rest m h = refl

  walk-total : (n : ℕ) (w : Place) → end - w.pos < n → is_some (walk is_utf8 mem f end n w) ≡ true
  unfolding walk
  walk-total zero w h = elim h [ ]
  walk-total (suc n) w h = elim (Bool-cases (leb (w.pos + 4) end)) [
    | inr out ↦ rw out refl
    | inl fits ↦
        let token = be32 mem (f.base + w.pos) in
        let w' = record w { pos = w.pos + 4 } in
        rw fits (
          continue-total (w.pos + 4) (take_token is_utf8 mem f end token w')
            (walk is_utf8 mem f end n) (take_token-Moves token w')
            (λ v l. walk-total n v (ground (arith, h, fits, l))))
  ]

is_some-and_then :
    (o : Option BoardParams) (g : BoardParams → Option BoardParams)
    → is_some o ≡ true
    → ((p : BoardParams) → is_some (g p) ≡ true)
    → is_some (and_then o g) ≡ true
is_some-and_then none g h k = h
is_some-and_then (some p) g h k = k p

-- The parser returns board parameters on every memory and for every header.
pub parse-total :
    (is_utf8 : List ℕ → Bool) (mem : ℕ → ℕ) (f : Fdt) → is_some (parse is_utf8 mem f) ≡ true
unfolding parse
parse-total is_utf8 mem f =
    is_some-and_then _ _
      (reserve_map-total mem f (suc f.total_size) f.off_rsvmap
        (add_reserved f.fdt_addr f.total_size empty) (omega arith))
      (λ p.
        walk-total is_utf8 mem f (struct_end f) (suc (struct_end f)) (at_root f p)
          (unfold at_root in omega arith))
