-- ===== src/Fdt/Merging.antt =====
-- The table of reserved intervals (kernel/src/fdt.rs: `BoardParams::add_reserved`): what the entries
-- cover.
use ignium.Base.{
  ℕ, zero, suc, ◌-◌, ◌<◌, ◌≡◌, Bool, true, false, ◌&&◌, ◌||◌, inl, inr, arith, ◌==◌, ltb, leb,
  update, Bool-cases, both_ways,
}
use ignium.Fdt.{end_of}

-- An address lies in one interval, or in one of the first `n` entries.
abbrev pub within : ℕ × ℕ → ℕ → Bool
within r x = leb r.0 x && ltb x (end_of r)

abbrev pub covers : (ℕ → ℕ × ℕ) → ℕ → ℕ → Bool
covers e zero x = false
covers e (suc n) x = covers e n x || within (e n) x

covers-intro : (e : ℕ → ℕ × ℕ) (n i x : ℕ) → i < n → within (e i) x ≡ true → covers e n x ≡ true
covers-intro e zero i x h w = elim h [ ]
covers-intro e (suc n) i x h w = elim (Bool-cases (i == n)) [
  | inl same ↦
      let q : i ≡ n = ground (arith, same) in
      let last : within (e n) x ≡ true = rw q at w in ground (arith, last)
  | inr other ↦ ground (arith, covers-intro e n i x (ground (arith, other, h)) w)
]

covers-elim :
    (e : ℕ → ℕ × ℕ) (n x : ℕ) → covers e n x ≡ true → (i : ℕ) × ((i < n) × (within (e i) x ≡ true))
covers-elim e zero x h = ground (arith, h)
covers-elim e (suc n) x h = elim (Bool-cases (within (e n) x)) [
  | inl last ↦ (n, (omega arith, last))
  | inr other ↦
      let rest = covers-elim e n x (ground (arith, h, other)) in
      (rest.0, (omega (arith, rest.1.0), rest.1.1))
]

-- Entry `i` leaves the table and the last one takes its place.
pub covers-remove :
    (e : ℕ → ℕ × ℕ) (n i x : ℕ)
    → i < n
    → (covers (update e i (e (n - 1))) (n - 1) x || within (e i) x) ≡ covers e n x
covers-remove e n i x h =
    let e' = update e i (e (n - 1)) in
    both_ways _ _
      (λ left. elim (Bool-cases (within (e i) x)) [
        | inl w ↦ covers-intro e n i x h w
        | inr out ↦
            let found = covers-elim e' (n - 1) x (ground (arith, left, out)) in
            elim (Bool-cases (found.0 == i)) [
              | inl same ↦
                  covers-intro e n (n - 1) x (omega (arith, h)) (ground (arith, found.1.1, same))
              | inr other ↦
                  covers-intro e n found.0 x (omega (arith, found.1.0))
                    (ground (arith, found.1.1, other))
            ]
      ])
      (λ right.
        let found = covers-elim e n x right in
        elim (Bool-cases (found.0 == i)) [
          | inl same ↦
              let q : found.0 ≡ i = ground (arith, same) in
              let w : within (e i) x ≡ true = rw q at found.1.1 in ground (arith, w)
          | inr other ↦ elim (Bool-cases (found.0 == n - 1)) [
            | inl last ↦
                let q : found.0 ≡ n - 1 = ground (arith, last) in
                let w : within (e (n - 1)) x ≡ true = rw q at found.1.1 in
                let i_lt : i < n - 1 = ground (arith, last, other, h, found.1.0) in
                let c = covers-intro e' (n - 1) i x i_lt (ground (arith, w)) in ground (arith, c)
            | inr inner ↦
                let f_lt : found.0 < n - 1 = ground (arith, inner, h, found.1.0) in
                let c = covers-intro e' (n - 1) found.0 x f_lt (ground (arith, other, found.1.1)) in
                ground (arith, c)
          ]
        ])
