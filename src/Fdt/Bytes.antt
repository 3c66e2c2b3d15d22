-- ===== src/Fdt/Bytes.antt =====
-- Byte strings as the device tree parser (kernel/src/fdt.rs) compares and reads them.
use Prim.Native.Char.{code}
use Prim.Native.String.{String}
use ignium.Base.{
  ℕ, zero, suc, ◌+◌, ◌-◌, ◌*◌, Bool, true, false, ◌&&◌, ◌||◌, Option, none, some, List, [], ◌∷◌,
  ◌==◌, ltb, leb, if◌then◌else◌, length,
}

-- The bytes of an ASCII literal.
abbrev pub codes : String → List ℕ
codes String.[] = []
codes (String.◌∷◌ c s) = code c ∷ codes s

-- `a == b` on byte strings
unfoldable pub bytes_eq : List ℕ → List ℕ → Bool
bytes_eq [] [] = true
bytes_eq [] (y ∷ ys) = false
bytes_eq (x ∷ xs) [] = false
bytes_eq (x ∷ xs) (y ∷ ys) = x == y && bytes_eq xs ys

unfoldable pub starts_with : List ℕ → List ℕ → Bool
starts_with [] ys = true
starts_with (x ∷ xs) [] = false
starts_with (x ∷ xs) (y ∷ ys) = x == y && starts_with xs ys

-- `s.windows(w.len()).any(|x| x == w)` for a nonempty `w`
unfoldable pub any_window : List ℕ → List ℕ → Bool
unfolding starts_with
any_window w [] = false
any_window w (x ∷ xs) = starts_with w (x ∷ xs) || any_window w xs

-- What follows the first `@`, if there is one.
unfoldable pub after_at : List ℕ → Option (List ℕ)
after_at [] = none
after_at (x ∷ xs) = let rest = after_at xs in if x == 64 then some xs else rest

-- `slice::from_raw_parts`
unfoldable pub slice : (ℕ → ℕ) → ℕ → ℕ → List ℕ
slice mem start zero = []
slice mem start (suc n) = mem start ∷ slice mem (start + 1) n

-- The bytes before the first zero, at most `n`.
unfoldable pub until_zero : (ℕ → ℕ) → ℕ → ℕ → List ℕ
until_zero mem start zero = []
until_zero mem start (suc n) =
    let rest = until_zero mem (start + 1) n in if mem start == 0 then [] else mem start ∷ rest

unfoldable pub hex_digit : ℕ → Option ℕ
hex_digit c =
    if leb 48 c && leb c 57
    then some (c - 48)
    else if leb 97 c && leb c 102
    then some (c - 97 + 10)
    else if leb 65 c && leb c 70
    then some (c - 65 + 10)
    else none

-- `val.checked_mul(16)` and `val.checked_add(digit)`
unfoldable pub add_digit : ℕ → ℕ → Option ℕ
add_digit val digit =
    if ltb (val * 16) 18446744073709551616
    then if ltb (val * 16 + digit) 18446744073709551616 then some (val * 16 + digit) else none
    else none

unfoldable pub hex_from : ℕ → List ℕ → Option ℕ
unfolding hex_digit add_digit
hex_from val [] = some val
hex_from val (c ∷ cs) = elim (hex_digit c) [
  | none ↦ none
  | some digit ↦ elim (add_digit val digit) [ none ↦ none | some val' ↦ hex_from val' cs ]
]

-- `none` for `Err(())`
unfoldable pub parse_hex : List ℕ → Option ℕ
unfolding hex_from
parse_hex s = if length s == 0 || ltb 16 (length s) then none else hex_from 0 s
