-- ===== src/Tests/Buddy.antt =====
-- Eight pages, of which page 5 is reserved.
use ignium.Buddy.Chains.{unlink-is_some}
use ignium.Abi.{usize_max}
use ignium.Base.{
  ◌≡◌, ◌+◌, false, true, some, [], ◌∷◌, arith, refl, ◌==◌, if◌then◌else◌, update, is_some,
}
use ignium.Buddy.{Buddy, carve, block_size, push}
use ignium.Buddy.Blocks.{free, accepts, merge, unlink, unlink_from, buddy_of, block_index}
use ignium.Buddy.Stale.{free-accepts}
use ignium.Buddy.Listed.{IsFree}
use ignium.Buddy.Carve.{carve_reserves_nothing}

abbrev pub eight : Buddy
eight = record {
  base = 0x81000000;
  real_count = 8;
  page_count = 8;
  meta = λ i. record { order = 0; used = false };
  free_lists = λ order. usize_max;
  first_word = λ i. 0;
}

carve_reserves_nothing_example :
    (b' : Buddy) × (carve 3 0 ((5, 6) ∷ []) eight ≡ some b') × IsFree b' 0 (0 + block_size 3) 5
unfolding block_size
carve_reserves_nothing_example =
    carve_reserves_nothing 5 6 3 0 5 eight (omega arith) (omega arith) (omega arith)

-- Two pages: the first is free, the second given out.
abbrev two : Buddy
two = record {
  base = 0x81000000;
  real_count = 2;
  page_count = 2;
  meta = λ i. record { order = 0; used = i == 1 };
  free_lists = λ order. if order == 0 then 0 else usize_max;
  first_word = λ i. usize_max;
}

abbrev merged : Buddy
merged = push 0 1 (record two { free_lists = update two.free_lists 0 usize_max })

free-accepts_example : accepts 0x81001000 merged ≡ true
unfolding free accepts merge unlink unlink_from buddy_of block_index block_size push
free-accepts_example =
    free-accepts 0x81001000 two merged refl (omega arith) (omega arith) (omega arith) refl refl refl

unlink-is_some_example : is_some (unlink 0 0 two) ≡ true
unlink-is_some_example =
    unlink-is_some 0 0 two (0 ∷ []) (refl, omega arith, omega arith, refl) (λ a. ground arith)
