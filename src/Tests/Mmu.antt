-- ===== src/Tests/Mmu.antt =====
-- A page table with an empty root, and an allocator with three pages.
use ignium.Base.{ℕ, ◌<◌, ◌≡◌, refl, arith, Bool, true, ◌&&◌, [], ◌∷◌, ◌==◌, if◌then◌else◌, ◌%◌}
use ignium.Abi.{user_va_limit}
use ignium.Mmu.{
  Tables, is_valid, is_leaf, map_user_page, unmap_4k, leaf_pte, pte, with_u, last_table,
  ensure_table, alloc_zeroed, map_new, pte_write, zero_page, table_of, ppn, l2, l1, l0,
}
use ignium.Mmu.Tree.{Role, IsTree}
use ignium.Mmu.Mapping.{map_user_page-Changes, map_unmap, map_user_page-guards, same_page}

abbrev empty : Tables
empty = record { mem = λ t i. 0; pages = 0x81001000 ∷ 0x81002000 ∷ 0x81003000 ∷ [] }

abbrev role : Role
role = record { kind = λ q. if q == 0x81000000 then 1 else 0; at2 = λ q. 0; at1 = λ q. 0 }

empty-IsTree : IsTree role 0x81000000 empty
unfolding is_valid is_leaf
empty-IsTree = record {
  top = refl;
  middles = λ i h. ground (arith, h);
  lasts = λ t i k h. ground (arith, h);
  unused = λ p more. ground (arith, more);
  once = λ p. ground arith;
}

abbrev every : ℕ → Bool
every a = true

map_user_page-Changes_example :
    let r = map_user_page every 0x81000000 0x10000 0x82000000 199 empty in
    ((ρ' : Role) × IsTree ρ' 0x81000000 r.1)
    × ((q : ℕ)
        → leaf_pte 0x81000000 q r.1 ≡ (
            if r.0 && same_page q 0x10000
            then pte 0x82000000 (with_u 199)
            else leaf_pte 0x81000000 q empty))
map_user_page-Changes_example =
    map_user_page-Changes every 0x81000000 0x10000 0x82000000 199 role empty empty-IsTree refl

done : (map_user_page every 0x81000000 0x10000 0x82000000 199 empty).0 ≡ true
unfolding map_user_page map_new last_table ensure_table alloc_zeroed zero_page pte_write is_valid
    is_leaf table_of pte ppn l2 l1 l0
done = refl

map_unmap_example :
    let mapped = (map_user_page every 0x81000000 0x10000 0x82000000 199 empty).1 in
    let r = unmap_4k 0x81000000 0x10000 mapped in
    (leaf_pte 0x81000000 0x10000 mapped ≡ pte 0x82000000 (with_u 199))
    × (r.0 ≡ true)
    × (leaf_pte 0x81000000 0x11000 r.1
        ≡ (if same_page 0x11000 0x10000 then 0 else leaf_pte 0x81000000 0x11000 empty))
map_unmap_example =
    map_unmap every 0x81000000 0x10000 0x82000000 199 0x11000 role empty empty-IsTree refl done

map_user_page-guards_example :
    (leaf_pte 0x81000000 0x10000 empty ≡ 0)
    × (0x10000 < user_va_limit)
    × (0x82000000 % 4096 ≡ 0)
    × (every 0x82000000 ≡ true)
map_user_page-guards_example =
    map_user_page-guards every 0x81000000 0x10000 0x82000000 199 role empty empty-IsTree done
