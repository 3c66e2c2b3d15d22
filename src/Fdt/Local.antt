-- ===== src/Fdt/Local.antt =====
-- Which bytes the device tree parser (kernel/src/fdt.rs) reads: two memories that agree on them.
use ignium.Base.{
  ℕ, zero, suc, ◌+◌, ◌-◌, ◌≤◌, ◌<◌, ◌≡◌, refl, ap, ◌∙◌, Bool, Option, none, some, List, leb, arith,
  inl, inr, Bool-cases,
}
use ignium.Fdt.{BoardParams, Fdt, be32, be64}
use ignium.Fdt.Bytes.{slice, until_zero}
use ignium.Fdt.Props.{
  set_memory, set_timebase, set_uart_clock, set_compatible, set_uart_reg, set_isa, read_string,
  set_prop, with_name, handle_prop,
}

-- The two memories have the same bytes from `lo` up to `hi`.
abbrev pub Agree : (mem mem' : ℕ → ℕ) → ℕ → ℕ → Type 0
Agree mem mem' lo hi = (a : ℕ) → lo ≤ a → a < hi → mem a ≡ mem' a

with_name-agree :
    (o : Option (List ℕ)) (p : BoardParams) (g g' : List ℕ → BoardParams)
    → ((name : List ℕ) → g name ≡ g' name)
    → with_name o p g ≡ with_name o p g'
with_name-agree none p g g' h = refl
with_name-agree (some name) p g g' h = h name

module _ (mem mem' : ℕ → ℕ) (lo hi : ℕ) (agree : Agree mem mem' lo hi) where
  pub be32-agree : (a : ℕ) → lo ≤ a → a + 4 ≤ hi → be32 mem a ≡ be32 mem' a
  unfolding be32
  be32-agree a l h = rw (
    agree a l (omega (arith, h)),
    agree (a + 1) (omega (arith, l)) (omega (arith, h)),
    agree (a + 2) (omega (arith, l)) (omega (arith, h)),
    agree (a + 3) (omega (arith, l)) (omega (arith, h)),
  )

  pub be64-agree : (a : ℕ) → lo ≤ a → a + 8 ≤ hi → be64 mem a ≡ be64 mem' a
  unfolding be64
  be64-agree a l h =
      rw (
        be32-agree a l (omega (arith, h)),
        be32-agree (a + 4) (omega (arith, l)) (omega (arith, h)),
      )

  slice-agree : (n a : ℕ) → lo ≤ a → a + n ≤ hi → slice mem a n ≡ slice mem' a n
  unfolding slice
  slice-agree zero a l h = refl
  slice-agree (suc n) a l h =
      rw (agree a l (omega (arith, h)), slice-agree n (a + 1) (omega (arith, l)) (omega (arith, h)))

  until_zero-agree : (n a : ℕ) → lo ≤ a → a + n ≤ hi → until_zero mem a n ≡ until_zero mem' a n
  unfolding until_zero
  until_zero-agree zero a l h = refl
  until_zero-agree (suc n) a l h = rw (
    agree a l (omega (arith, h)),
    until_zero-agree n (a + 1) (omega (arith, l)) (omega (arith, h)),
  )

  set_memory-agree :
      (val n : ℕ) (p : BoardParams)
      → lo ≤ val
      → val + n ≤ hi
      → set_memory mem val n p ≡ set_memory mem' val n p
  unfolding set_memory
  set_memory-agree val n p l h = elim (Bool-cases (leb 16 n)) [
    | inl wide ↦
        let k : 16 ≤ n = ground (arith, wide) in
        rw (
          wide,
          be64-agree val l (omega (arith, h, k)),
          be64-agree (val + 8) (omega (arith, l)) (omega (arith, h, k)),
        )
    | inr narrow ↦ elim (Bool-cases (leb 8 n)) [
      | inl two ↦
          let k : 8 ≤ n = ground (arith, two) in
          rw (
            narrow,
            two,
            be32-agree val l (omega (arith, h, k)),
            be32-agree (val + 4) (omega (arith, l)) (omega (arith, h, k)),
          )
      | inr one ↦ rw (narrow, one)
    ]
  ]

  set_timebase-agree :
      (val n : ℕ) (p : BoardParams)
      → lo ≤ val
      → val + n ≤ hi
      → set_timebase mem val n p ≡ set_timebase mem' val n p
  unfolding set_timebase
  set_timebase-agree val n p l h = elim (Bool-cases (leb 4 n)) [
    | inl k ↦ rw (k, be32-agree val l (ground (arith, h, k)))
    | inr k ↦ rw k
  ]

  set_uart_clock-agree :
      (val n : ℕ) (p : BoardParams)
      → lo ≤ val
      → val + n ≤ hi
      → set_uart_clock mem val n p ≡ set_uart_clock mem' val n p
  unfolding set_uart_clock
  set_uart_clock-agree val n p l h = elim (Bool-cases (leb 4 n)) [
    | inl k ↦ rw (k, be32-agree val l (ground (arith, h, k)))
    | inr k ↦ rw k
  ]

  set_compatible-agree :
      (node : List ℕ) (val n : ℕ) (p : BoardParams)
      → lo ≤ val
      → val + n ≤ hi
      → set_compatible mem node val n p ≡ set_compatible mem' node val n p
  unfolding set_compatible
  set_compatible-agree node val n p l h = rw (slice-agree n val l h)

  set_uart_reg-agree :
      (val n : ℕ) (p : BoardParams)
      → lo ≤ val
      → val + n ≤ hi
      → set_uart_reg mem val n p ≡ set_uart_reg mem' val n p
  unfolding set_uart_reg
  set_uart_reg-agree val n p l h = elim (Bool-cases (leb 8 n)) [
    | inl k ↦ rw (k, be64-agree val l (ground (arith, h, k)))
    | inr k ↦ elim (Bool-cases (leb 4 n)) [
      | inl j ↦ rw (k, j, be32-agree val l (ground (arith, h, j)))
      | inr j ↦ rw (k, j)
    ]
  ]

  module _ (is_utf8 : List ℕ → Bool) where
    set_isa-agree :
        (val n : ℕ) (p : BoardParams)
        → lo ≤ val
        → val + n ≤ hi
        → set_isa is_utf8 mem val n p ≡ set_isa is_utf8 mem' val n p
    unfolding set_isa
    set_isa-agree val n p l h = rw (until_zero-agree n val l h)

    set_prop-agree :
        (name node : List ℕ) (val n : ℕ) (p : BoardParams)
        → lo ≤ val
        → val + n ≤ hi
        → set_prop is_utf8 mem name node val n p ≡ set_prop is_utf8 mem' name node val n p
    unfolding set_prop
    set_prop-agree name node val n p l h = rw (
      set_memory-agree val n p l h,
      set_timebase-agree val n p l h,
      set_uart_clock-agree val n p l h,
      set_compatible-agree node val n p l h,
      set_uart_reg-agree val n p l h,
      set_isa-agree val n p l h,
    )

    read_string-agree :
        (f : Fdt) (offset : ℕ)
        → lo ≤ f.base
        → f.base + (f.off_strings + f.size_strings) ≤ hi
        → read_string is_utf8 mem f offset ≡ read_string is_utf8 mem' f offset
    unfolding read_string
    read_string-agree f offset l h = elim (Bool-cases (leb f.size_strings offset)) [
      | inl out ↦ rw out
      | inr inside ↦ rw (
          until_zero-agree (f.size_strings - offset) (f.base + (f.off_strings + offset))
            (omega (arith, l)) (ground (arith, h, inside)))
    ]

    pub handle_prop-agree :
        (f : Fdt) (node : List ℕ) (name_off val n : ℕ) (p : BoardParams)
        → lo ≤ f.base
        → f.base + (f.off_strings + f.size_strings) ≤ hi
        → lo ≤ val
        → val + n ≤ hi
        → handle_prop is_utf8 mem f node name_off val n p
          ≡ handle_prop is_utf8 mem' f node name_off val n p
    unfolding handle_prop
    handle_prop-agree f node name_off val n p l h lv hv =
        ap (λ o. with_name o p (λ name. set_prop is_utf8 mem name node val n p))
          (read_string-agree f name_off l h)
        ∙ with_name-agree (read_string is_utf8 mem' f name_off) p _ _
            (λ name. set_prop-agree name node val n p lv hv)
