-- ===== src/Fdt/Walk.antt =====
-- The loops of the device tree parser (kernel/src/fdt.rs: `parse`): the reserve map, and the tokens of
-- the structure block with the stack of node names. `none` is a loop that has used up its fuel.
use ignium.Base.{
  ℕ, zero, suc, ◌+◌, ◌-◌, ◌*◌, ◌/◌, Bool, true, false, ◌&&◌, not, Option, none, some, List, [], ◌∷◌,
  ◌==◌, ltb, leb, if◌then◌else◌, length, update,
}
use ignium.Fdt.{BoardParams, Fdt, be32, be64, sat_add, past_end, add_reserved, min, empty}
use ignium.Fdt.Props.{handle_prop}

-- The number of levels of `node_stack`, and of the bytes of a name that are kept.
abbrev pub max_depth : ℕ
max_depth = 8

abbrev pub max_name : ℕ
max_name = 63

-- `(n + 3) & !3`
unfoldable pub align4 : ℕ → ℕ
align4 n = (n + 3) / 4 * 4

-- `current_node[..current_node_len]` is one list.
pub record Place : Type 0 where
  pub pos : ℕ
  pub node : List ℕ
  pub stack : ℕ → List ℕ
  pub depth : ℕ
  pub depth_exceeded : Bool
  pub params : BoardParams

-- A turn of the loop goes on or breaks.
pub data Turn : Type 0 where
  onward : Place → Turn
  stop : BoardParams → Turn

module _ (mem : ℕ → ℕ) where
  unfoldable pub reserve_map : Fdt → ℕ → ℕ → BoardParams → Option BoardParams
  unfolding past_end be64 add_reserved
  reserve_map f zero off p = none
  reserve_map f (suc fuel) off p =
      let addr = be64 mem (f.base + off) in
      let size = be64 mem (f.base + off + 8) in
      let rest = reserve_map f fuel (off + 16) (add_reserved addr size p) in
      if past_end off 16 f.total_size
      then some p
      else if addr == 0 && size == 0
      then some p
      else rest

  -- The bytes of a node's name, at most `room`, and the position behind them.
  unfoldable pub read_name : Fdt → ℕ → ℕ → ℕ → List ℕ × ℕ
  read_name f end zero pos = ([], pos)
  read_name f end (suc room) pos =
      let rest = read_name f end room (pos + 1) in
      if ltb pos end
      then if mem (f.base + pos) == 0 then ([], pos) else (mem (f.base + pos) ∷ rest.0, rest.1)
      else ([], pos)

  -- The position behind the next zero, or the end. The fuel is the distance to the end.
  unfoldable pub skip_name : Fdt → ℕ → ℕ → ℕ
  skip_name f zero pos = pos
  skip_name f (suc left) pos =
      let rest = skip_name f left (pos + 1) in if mem (f.base + pos) == 0 then pos + 1 else rest

  unfoldable pub begin_node : Fdt → ℕ → Place → Place
  unfolding read_name skip_name align4
  begin_node f end w =
      let read = read_name f end max_name w.pos in
      let after =
        if leb max_name (length read.0) then skip_name f (end - read.1) read.1 else read.1 + 1 in
      record w {
        pos = align4 after;
        node = read.0;
        stack = if ltb w.depth max_depth then update w.stack w.depth w.node else w.stack;
        depth = w.depth + 1;
        depth_exceeded = if ltb max_depth (w.depth + 1) then true else w.depth_exceeded;
      }

unfoldable pub end_node : Place → Place
end_node w =
    let depth = w.depth - 1 in
    record w {
      node = if ltb depth max_depth then w.stack depth else w.node;
      depth = depth;
      depth_exceeded = ltb max_depth depth;
    }

abbrev pub continue : Turn → (Place → Option BoardParams) → Option BoardParams
continue (onward w) rest = rest w
continue (stop p) rest = some p

-- A loop behind a loop.
abbrev pub and_then : Option BoardParams → (BoardParams → Option BoardParams) → Option BoardParams
and_then none rest = none
and_then (some p) rest = rest p

unfoldable pub struct_end : Fdt → ℕ
unfolding sat_add min
struct_end f = min (sat_add f.off_struct f.size_struct) f.total_size

unfoldable pub at_root : Fdt → BoardParams → Place
at_root f p = record {
  pos = f.off_struct;
  node = [];
  stack = λ d. [];
  depth = 0;
  depth_exceeded = false;
  params = p;
}

module _ (is_utf8 : List ℕ → Bool) (mem : ℕ → ℕ) where
  unfoldable pub read_prop : Fdt → ℕ → Place → Turn
  unfolding be32 align4 past_end handle_prop
  read_prop f end w =
      let prop_len = be32 mem (f.base + w.pos) in
      let name_off = be32 mem (f.base + w.pos + 4) in
      let val = f.base + (w.pos + 8) in
      let padded = align4 prop_len in
      let behind = w.pos + 8 + padded in
      if ltb end (w.pos + 8)
      then stop w.params
      else if past_end (w.pos + 8) padded end
      then stop w.params
      else onward (record w {
        pos = behind;
        params =
            if not w.depth_exceeded
            then handle_prop is_utf8 mem f w.node name_off val prop_len w.params
            else w.params;
      })

  -- The body of the loop behind the token, which stands at `pos - 4`.
  unfoldable pub take_token : Fdt → ℕ → ℕ → Place → Turn
  unfolding begin_node end_node read_prop
  take_token f end token w =
      if token == 1
      then onward (begin_node mem f end w)
      else if token == 2
      then onward (end_node w)
      else if token == 3
      then read_prop f end w
      else if token == 4
      then onward w
      else stop w.params

  unfoldable pub walk : Fdt → ℕ → ℕ → Place → Option BoardParams
  unfolding be32 take_token
  walk f end zero w = none
  walk f end (suc fuel) w =
      if leb (w.pos + 4) end
      then continue (take_token f end (be32 mem (f.base + w.pos)) (record w { pos = w.pos + 4 }))
          (walk f end fuel)
      else some w.params

  unfoldable pub parse : Fdt → Option BoardParams
  unfolding add_reserved reserve_map walk struct_end at_root
  parse f =
      let own = add_reserved f.fdt_addr f.total_size empty in
      and_then (reserve_map mem f (suc f.total_size) f.off_rsvmap own)
        (λ p. walk f (struct_end f) (suc (struct_end f)) (at_root f p))
