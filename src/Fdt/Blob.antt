-- ===== src/Fdt/Blob.antt =====
-- The whole parse of a device tree (kernel/src/fdt.rs: `Fdt::new`, `Fdt::parse`) over two memories that
-- agree on the blob.
use ignium.Base.{
  ℕ, zero, suc, ◌+◌, ◌-◌, ◌≤◌, ◌<◌, ◌≡◌, refl, sym, ap, ◌∙◌, Bool, true, Option, none, some, List,
  ltb, leb, arith, inl, inr, Bool-cases,
}
use ignium.Fdt.{
  BoardParams, Fdt, be32, be64, past_end, add_reserved, min, sat_add, empty, header_fits, header_at,
  new, header_size,
}
use ignium.Fdt.Walk.{
  Place, Turn, onward, stop, align4, max_name, reserve_map, read_name, skip_name, begin_node,
  read_prop, take_token, continue, walk, and_then, struct_end, at_root, parse,
}
use ignium.Fdt.Local.{Agree, be32-agree, be64-agree, handle_prop-agree}

continue-agree :
    (t : Turn) (g g' : Place → Option BoardParams)
    → ((w : Place) → g w ≡ g' w)
    → continue t g ≡ continue t g'
continue-agree (onward w) g g' h = h w
continue-agree (stop p) g g' h = refl

-- The blob reaches from `base` to `base + total_size`, and the header has been checked.
module _ (mem mem' : ℕ → ℕ) (f : Fdt) (agree : Agree mem mem' f.base (f.base + f.total_size)) where
  reserve_map-agree :
      (n off : ℕ) (p : BoardParams) → reserve_map mem f n off p ≡ reserve_map mem' f n off p
  unfolding reserve_map
  reserve_map-agree zero off p = refl
  reserve_map-agree (suc n) off p = elim (Bool-cases (past_end off 16 f.total_size)) [
    | inl out ↦ rw out
    | inr fits ↦
        let room : off + 16 ≤ f.total_size = unfold past_end in ground (arith, fits) in
        let hi = f.base + f.total_size in
        rw (
          be64-agree mem mem' f.base hi agree (f.base + off) (omega arith) (omega (arith, room)),
          be64-agree mem mem' f.base hi agree (f.base + off + 8) (omega arith)
              (omega (arith, room)),
          reserve_map-agree n (off + 16)
              (add_reserved (be64 mem' (f.base + off)) (be64 mem' (f.base + off + 8)) p),
        )
  ]

  module _ (end : ℕ) (inside : end ≤ f.total_size) where
    read_name-agree : (n pos : ℕ) → read_name mem f end n pos ≡ read_name mem' f end n pos
    unfolding read_name
    read_name-agree zero pos = refl
    read_name-agree (suc n) pos = elim (Bool-cases (ltb pos end)) [
      | inl k ↦
          let l : pos < end = ground (arith, k) in
          rw (
            k,
            agree (f.base + pos) (omega arith) (omega (arith, l, inside)),
            read_name-agree n (pos + 1),
          )
      | inr k ↦ rw k
    ]

    skip_name-agree : (n pos : ℕ) → n ≤ end - pos → skip_name mem f n pos ≡ skip_name mem' f n pos
    unfolding skip_name
    skip_name-agree zero pos h = refl
    skip_name-agree (suc n) pos h = rw (
      agree (f.base + pos) (omega arith) (omega (arith, h, inside)),
      skip_name-agree n (pos + 1) (omega (arith, h)),
    )

    begin_node-agree : (w : Place) → begin_node mem f end w ≡ begin_node mem' f end w
    unfolding begin_node
    begin_node-agree w =
        let read = read_name mem' f end max_name w.pos in
        rw (read_name-agree max_name w.pos, skip_name-agree (end - read.1) read.1 (omega arith))

    module _ (is_utf8 : List ℕ → Bool)
        (strings : f.off_strings + f.size_strings ≤ f.total_size) where
      read_prop-agree : (w : Place) → read_prop is_utf8 mem f end w ≡ read_prop is_utf8 mem' f end w
      unfolding read_prop
      read_prop-agree w = elim (Bool-cases (ltb end (w.pos + 8))) [
        | inl out ↦ rw out
        | inr fits ↦
            let room : w.pos + 8 ≤ end = ground (arith, fits) in
            let hi = f.base + f.total_size in
            let at = f.base + w.pos in
            let n = be32 mem' at in
            let len_same =
              be32-agree mem mem' f.base hi agree at (omega arith) (omega (arith, room, inside)) in
            let off_same =
              be32-agree mem mem' f.base hi agree (at + 4) (omega arith)
                (omega (arith, room, inside)) in
            elim (Bool-cases (past_end (w.pos + 8) (align4 n) end)) [
              | inl out ↦ rw (len_same, fits, out)
              | inr whole ↦
                  let value : w.pos + 8 + n ≤ end =
                    unfold past_end align4 in ground (arith, whole) in
                  rw (
                    len_same,
                    off_same,
                    fits,
                    whole,
                    handle_prop-agree mem mem' f.base hi agree is_utf8 f w.node (be32 mem' (at + 4))
                        (f.base + (w.pos + 8)) n w.params (omega arith) (omega (arith, strings))
                        (omega arith) (omega (arith, value, inside)),
                  )
            ]
      ]

      take_token-agree :
          (token : ℕ) (w : Place)
          → take_token is_utf8 mem f end token w ≡ take_token is_utf8 mem' f end token w
      unfolding take_token
      take_token-agree token w = rw (begin_node-agree w, read_prop-agree w)

      walk-agree : (n : ℕ) (w : Place) → walk is_utf8 mem f end n w ≡ walk is_utf8 mem' f end n w
      unfolding walk
      walk-agree zero w = refl
      walk-agree (suc n) w = elim (Bool-cases (leb (w.pos + 4) end)) [
        | inr out ↦ rw out
        | inl fits ↦
            let room : w.pos + 4 ≤ end = ground (arith, fits) in
            let token =
              be32-agree mem mem' f.base (f.base + f.total_size) agree (f.base + w.pos)
                (omega arith) (omega (arith, room, inside)) in
            let w' = record w { pos = w.pos + 4 } in
            let t = take_token is_utf8 mem' f end (be32 mem' (f.base + w.pos)) w' in
            rw (fits, token, take_token-agree (be32 mem' (f.base + w.pos)) w')
              (continue-agree t (walk is_utf8 mem f end n) (walk is_utf8 mem' f end n)
                (walk-agree n))
      ]

and_then-agree :
    (o : Option BoardParams) (g g' : BoardParams → Option BoardParams)
    → ((p : BoardParams) → g p ≡ g' p)
    → and_then o g ≡ and_then o g'
and_then-agree none g g' h = refl
and_then-agree (some p) g g' h = h p

-- What the checks of `new` say of the offsets.
header_fits-inside :
    (f : Fdt)
    → header_fits f ≡ true
    → (header_size ≤ f.total_size)
      × ((struct_end f ≤ f.total_size) × (f.off_strings + f.size_strings ≤ f.total_size))
unfolding header_fits struct_end min sat_add past_end
header_fits-inside f h = ground (arith, h)

parse_local :
    (is_utf8 : List ℕ → Bool) (mem mem' : ℕ → ℕ) (f : Fdt)
    → header_fits f ≡ true
    → Agree mem mem' f.base (f.base + f.total_size)
    → parse is_utf8 mem f ≡ parse is_utf8 mem' f
unfolding parse
parse_local is_utf8 mem mem' f h agree =
    let own = add_reserved f.fdt_addr f.total_size empty in
    let inside = header_fits-inside f h in
    ap (λ o. and_then o (λ p. walk is_utf8 mem f (struct_end f) (suc (struct_end f)) (at_root f p)))
      (reserve_map-agree mem mem' f agree (suc f.total_size) f.off_rsvmap own)
    ∙ and_then-agree _ _ _ (λ p.
      walk-agree mem mem' f agree (struct_end f) inside.1.0 is_utf8 inside.1.1 (suc (struct_end f))
        (at_root f p))

module _ (mem mem' : ℕ → ℕ) (fdt total : ℕ) (wide : header_size ≤ total)
    (agree : Agree mem mem' fdt (fdt + total)) where
  word-agree : (o : ℕ) → o + 4 ≤ header_size → be32 mem (fdt + o) ≡ be32 mem' (fdt + o)
  word-agree o h =
      be32-agree mem mem' fdt (fdt + total) agree (fdt + o) (omega arith) (omega (arith, h, wide))

  header_at-agree : header_at mem fdt ≡ header_at mem' fdt
  unfolding header_at
  header_at-agree = rw (
    word-agree 4 (omega arith),
    word-agree 8 (omega arith),
    word-agree 12 (omega arith),
    word-agree 16 (omega arith),
    word-agree 36 (omega arith),
    word-agree 32 (omega arith),
  )

  new-agree : new mem fdt ≡ new mem' fdt
  unfolding new
  new-agree =
      let magic =
        be32-agree mem mem' fdt (fdt + total) agree fdt (omega arith) (omega (arith, wide)) in
      rw (ap header_fits header_at-agree, header_at-agree, magic)

new-some :
    (mem : ℕ → ℕ) (fdt : ℕ) (f : Fdt)
    → new mem fdt ≡ some f
    → (f ≡ header_at mem fdt) × (header_fits f ≡ true)
unfolding new
new-some mem fdt f h = ground (arith, h)

-- Where new accepts the header at an address, another memory with the same bytes in the total
-- size of the tree from that address on gives the same header and the same board parameters: no
-- byte outside of it is used.
pub new-parse_local :
    (is_utf8 : List ℕ → Bool) (mem mem' : ℕ → ℕ) (fdt : ℕ) (f : Fdt)
    → new mem fdt ≡ some f
    → Agree mem mem' fdt (fdt + f.total_size)
    → (new mem' fdt ≡ some f) × (parse is_utf8 mem' f ≡ parse is_utf8 mem f)
new-parse_local is_utf8 mem mem' fdt f h agree =
    let checked = new-some mem fdt f h in
    let at : f.base ≡ fdt = unfold header_at in ap (λ (g : Fdt). g.base) checked.0 in
    let wide = (header_fits-inside f checked.1).0 in
    let blob : Agree mem mem' f.base (f.base + f.total_size) = rw at agree in
    (
      sym (new-agree mem mem' fdt f.total_size wide agree) ∙ h,
      sym (parse_local is_utf8 mem mem' f checked.1 blob),
    )
