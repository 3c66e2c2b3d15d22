-- ===== src/Tests/Fdt.antt =====
-- A device tree of one memory node, at the address 0x82000000, and one entry of the reserve map.
use ignium.Base.{
  ℕ, ◌+◌, ◌-◌, ◌%◌, ◌≡◌, refl, Bool, true, ltb, Option, none, some, List, [], ◌∷◌, arith, get_elem?,
  if◌then◌else◌,
}
use ignium.Fdt.{BoardParams, Fdt, new, header_at, be32, header_fits, add_reserved, empty}
use ignium.Fdt.Walk.{parse}
use ignium.Fdt.Adding.{Added, add_reserved-Added}
use ignium.Fdt.Outcome.{Guards}
use ignium.Fdt.Board.{parse-Guards}
use ignium.Fdt.Blob.{new-parse_local}

abbrev blob : List ℕ
blob =
    208 ∷ 13 ∷ 254 ∷ 237 ∷ 0 ∷ 0 ∷ 0 ∷ 140 ∷ 0 ∷ 0 ∷ 0 ∷ 72 ∷ 0 ∷ 0 ∷ 0 ∷ 136 ∷ 0 ∷ 0 ∷ 0 ∷ 40 ∷ 0
    ∷ 0 ∷ 0 ∷ 17 ∷ 0 ∷ 0 ∷ 0 ∷ 16 ∷ 0 ∷ 0 ∷ 0 ∷ 0 ∷ 0 ∷ 0 ∷ 0 ∷ 4 ∷ 0 ∷ 0 ∷ 0 ∷ 64 ∷ 0 ∷ 0 ∷ 0 ∷ 0
    ∷ 128 ∷ 32 ∷ 0 ∷ 0 ∷ 0 ∷ 0 ∷ 0 ∷ 0 ∷ 0 ∷ 0 ∷ 16 ∷ 0 ∷ 0 ∷ 0 ∷ 0 ∷ 0 ∷ 0 ∷ 0 ∷ 0 ∷ 0 ∷ 0 ∷ 0 ∷ 0
    ∷ 0 ∷ 0 ∷ 0 ∷ 0 ∷ 0 ∷ 0 ∷ 0 ∷ 0 ∷ 1 ∷ 0 ∷ 0 ∷ 0 ∷ 0 ∷ 0 ∷ 0 ∷ 0 ∷ 1 ∷ 109 ∷ 101 ∷ 109 ∷ 111
    ∷ 114 ∷ 121 ∷ 64 ∷ 56 ∷ 0 ∷ 0 ∷ 0 ∷ 0 ∷ 0 ∷ 0 ∷ 0 ∷ 3 ∷ 0 ∷ 0 ∷ 0 ∷ 16 ∷ 0 ∷ 0 ∷ 0 ∷ 0 ∷ 0 ∷ 0
    ∷ 0 ∷ 0 ∷ 128 ∷ 0 ∷ 0 ∷ 0 ∷ 0 ∷ 0 ∷ 0 ∷ 0 ∷ 8 ∷ 0 ∷ 0 ∷ 0 ∷ 0 ∷ 0 ∷ 0 ∷ 2 ∷ 0 ∷ 0 ∷ 0 ∷ 2 ∷ 0
    ∷ 0 ∷ 0 ∷ 9 ∷ 114 ∷ 101 ∷ 103 ∷ 0 ∷ []

abbrev or_zero : Option ℕ → ℕ
or_zero none = 0
or_zero (some b) = b

abbrev mem : ℕ → ℕ
mem a = or_zero (get_elem? blob (a - 0x82000000)) % 256

abbrev header : Fdt
header = record {
  base = 0x82000000;
  total_size = 140;
  off_struct = 72;
  off_strings = 136;
  off_rsvmap = 40;
  size_struct = 64;
  size_strings = 4;
  fdt_addr = 0x82000000;
}

any_text : List ℕ → Bool
any_text s = true

new_blob : new mem 0x82000000 ≡ some header
unfolding new header_at be32 header_fits
new_blob = refl

header_fits_blob : header_fits header ≡ true
unfolding header_fits
header_fits_blob = refl

abbrev ram_of : Option BoardParams → Option (ℕ × ℕ)
ram_of none = none
ram_of (some p) = some (p.ram_start, p.ram_size)

abbrev table_of : Option BoardParams → Option (ℕ × ((ℕ × ℕ) × (ℕ × ℕ)))
table_of none = none
table_of (some p) = some (p.reserved_count, (p.reserved 0, p.reserved 1))

parse_ram : ram_of (parse any_text mem header) ≡ some (0x80000000, 0x8000000)
unfolding parse any_text
parse_ram = refl

parse_table :
    table_of (parse any_text mem header) ≡ some (2, ((0x82000000, 140), (0x80200000, 0x1000)))
unfolding parse any_text
parse_table = refl

parse-Guards_example :
    (r : BoardParams) × ((parse any_text mem header ≡ some r)
      × Guards 0x82000000 (0x82000000 + 140) r.reserved r.reserved_count)
parse-Guards_example =
    parse-Guards any_text mem header (λ a. omega arith) (omega arith) header_fits_blob

abbrev other : ℕ → ℕ
other a = if ltb a 0x82000000 then 7 else mem a

new-parse_local_example :
    (new other 0x82000000 ≡ some header) × (parse any_text other header ≡ parse any_text mem header)
new-parse_local_example =
    new-parse_local any_text mem other 0x82000000 header new_blob (λ a l h. ground (arith, l))

abbrev one_entry : BoardParams
one_entry = record empty { reserved = λ i. (0x1000, 0x1000); reserved_count = 1 }

add_reserved-Added_example : Added 0x1800 0x1000 one_entry (add_reserved 0x1800 0x1000 one_entry)
add_reserved-Added_example =
    add_reserved-Added 0x1800 0x1000 one_entry (omega arith) (omega arith)
      (record { small = λ i h. omega arith; apart = λ i j h k d. ground (arith, h, k, d) })
