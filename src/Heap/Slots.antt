-- ===== src/Heap/Slots.antt =====
-- Where the slots of a class stand in a page (kernel/src/heap.rs: `SLAB_SIZES`, the loop of `new_slab`,
-- the checks of `dealloc`).
use native.Mathlib.Nat.{suc-mul}
use ignium.Base.{
  ℕ, zero, suc, ◌+◌, ◌-◌, ◌*◌, ◌/◌, ◌%◌, ◌≡◌, ◌≤◌, ◌<◌, subst, true, ◌&&◌, ◌==◌, contains, Distinct,
  arith, inl, inr, Bool-cases, both_ways,
}
use ignium.Abi.{page_size}
use ignium.Heap.{slab_size, classes}
use ignium.Heap.Sweep.{capacity}
use ignium.Heap.Alloc.{page_of, is_slot, max_slots}
use ignium.Heap.Linked.{slots_from, Room}

-- What holds of each of the eight classes.
by_class :
    (P : ℕ → Type 0)
    → P 0
    → P 1
    → P 2
    → P 3
    → P 4
    → P 5
    → P 6
    → P 7
    → (idx : ℕ) → idx < classes
    → P idx
by_class P a b c d e f g h zero l = a
by_class P a b c d e f g h (suc zero) l = b
by_class P a b c d e f g h (suc (suc zero)) l = c
by_class P a b c d e f g h (suc (suc (suc zero))) l = d
by_class P a b c d e f g h (suc (suc (suc (suc zero)))) l = e
by_class P a b c d e f g h (suc (suc (suc (suc (suc zero))))) l = f
by_class P a b c d e f g h (suc (suc (suc (suc (suc (suc zero)))))) l = g
by_class P a b c d e f g h (suc (suc (suc (suc (suc (suc (suc zero))))))) l = h
by_class P a b c d e f g h (suc (suc (suc (suc (suc (suc (suc (suc idx)))))))) l =
    absurd (omega arith)

pub record IsFitting (size cap : ℕ) : Type 0 where
  pub some_size : 0 < size
  pub whole : size + cap * size ≤ page_size
  pub tight : page_size < size + cap * size + size
  pub few : cap ≤ max_slots
  pub several : 0 < cap

pub slab_size-IsFitting : (idx : ℕ) → idx < classes → IsFitting (slab_size idx) (capacity idx)
unfolding slab_size capacity
slab_size-IsFitting =
    let at : (size cap : ℕ)
        → 0 < size
        → size + cap * size ≤ page_size
        → page_size < size + cap * size + size
        → cap ≤ max_slots
        → 0 < cap
        → IsFitting size cap =
      λ size cap a b c d e. record { some_size = a; whole = b; tight = c; few = d; several = e } in
    by_class (λ idx. IsFitting (slab_size idx) (capacity idx))
      (at 16 255 (omega arith) (omega arith) (omega arith) (omega arith) (omega arith))
      (at 32 127 (omega arith) (omega arith) (omega arith) (omega arith) (omega arith))
      (at 64 63 (omega arith) (omega arith) (omega arith) (omega arith) (omega arith))
      (at 128 31 (omega arith) (omega arith) (omega arith) (omega arith) (omega arith))
      (at 256 15 (omega arith) (omega arith) (omega arith) (omega arith) (omega arith))
      (at 512 7 (omega arith) (omega arith) (omega arith) (omega arith) (omega arith))
      (at 1024 3 (omega arith) (omega arith) (omega arith) (omega arith) (omega arith))
      (at 2048 1 (omega arith) (omega arith) (omega arith) (omega arith) (omega arith))

-- An offset passes the checks if it is that of one of the slots.
abbrev Indexed : ℕ → Type 0
Indexed idx =
    (off : ℕ)
    → is_slot idx off ≡ true
    → (k : ℕ) × ((k < capacity idx) × (off ≡ slab_size idx + k * slab_size idx))

is_slot-index : (idx : ℕ) → idx < classes → Indexed idx
unfolding is_slot slab_size capacity
is_slot-index =
    by_class Indexed (λ off h. (off / 16 - 1, (ground (arith, h), ground (arith, h))))
      (λ off h. (off / 32 - 1, (ground (arith, h), ground (arith, h))))
      (λ off h. (off / 64 - 1, (ground (arith, h), ground (arith, h))))
      (λ off h. (off / 128 - 1, (ground (arith, h), ground (arith, h))))
      (λ off h. (off / 256 - 1, (ground (arith, h), ground (arith, h))))
      (λ off h. (off / 512 - 1, (ground (arith, h), ground (arith, h))))
      (λ off h. (off / 1024 - 1, (ground (arith, h), ground (arith, h))))
      (λ off h. (off / 2048 - 1, (ground (arith, h), ground (arith, h))))

index-is_slot :
    (idx : ℕ)
    → idx < classes
    → (k : ℕ) → k < capacity idx
    → is_slot idx (slab_size idx + k * slab_size idx) ≡ true
unfolding is_slot slab_size capacity
index-is_slot =
    by_class
      (λ idx. (k : ℕ) → k < capacity idx → is_slot idx (slab_size idx + k * slab_size idx) ≡ true)
      (λ k h. ground (arith, h)) (λ k h. ground (arith, h)) (λ k h. ground (arith, h))
      (λ k h. ground (arith, h)) (λ k h. ground (arith, h)) (λ k h. ground (arith, h))
      (λ k h. ground (arith, h)) (λ k h. ground (arith, h))

Room-intro :
    (n size end slot : ℕ)
    → slot + n * size ≤ end
    → end < slot + n * size + size
    → Room n size end slot
Room-intro zero size end slot h g = omega arith
Room-intro (suc n) size end slot h g = (
  omega (arith, h, suc-mul n size),
  Room-intro n size end (slot + size) (omega (arith, h, suc-mul n size))
      (omega (arith, g, suc-mul n size)),
)

pub page-Room :
    (idx page : ℕ)
    → idx < classes
    → Room (capacity idx) (slab_size idx) (page + page_size) (page + slab_size idx)
page-Room idx page h =
    let fit = slab_size-IsFitting idx h in
    Room-intro (capacity idx) (slab_size idx) (page + page_size) (page + slab_size idx)
      (omega (arith, fit.whole)) (omega (arith, fit.tight))

contains-slots :
    (n size slot k : ℕ) → k < n → contains (slots_from n size slot) (slot + k * size) ≡ true
contains-slots zero size slot k h = elim h [ ]
contains-slots (suc n) size slot zero h = ground arith
contains-slots (suc n) size slot (suc k) h =
    let at : slot + size + k * size ≡ slot + suc k * size = omega (arith, suc-mul k size) in
    let rest : contains (slots_from n size (slot + size)) (slot + suc k * size) ≡ true =
      subst (λ a. contains (slots_from n size (slot + size)) a ≡ true) at
        (contains-slots n size (slot + size) k (omega arith)) in
    ground (arith, rest)

slots-contains :
    (n size slot a : ℕ)
    → contains (slots_from n size slot) a ≡ true
    → (k : ℕ) × ((k < n) × (a ≡ slot + k * size))
slots-contains zero size slot a h = ground (arith, h)
slots-contains (suc n) size slot a h = elim (Bool-cases (slot == a)) [
  | inl here ↦ (0, (omega arith, ground (arith, here)))
  | inr later ↦
      let rest = slots-contains n size (slot + size) a (ground (arith, h, later)) in
      (suc rest.0, (omega (arith, rest.1.0), omega (arith, rest.1.1, suc-mul rest.0 size)))
]

pub slots_from-Distinct : (n size slot : ℕ) → 0 < size → Distinct (slots_from n size slot)
slots_from-Distinct zero size slot h = tt
slots_from-Distinct (suc n) size slot h =
    let rest = slots_from-Distinct n size (slot + size) h in
    elim (Bool-cases (contains (slots_from n size (slot + size)) slot)) [
      | inl again ↦
          let at = slots-contains n size (slot + size) slot again in
          absurd (omega (arith, at.1.1, h))
      | inr new ↦ (new, rest)
    ]

pub is_slot-bounds :
    (idx off : ℕ) → idx < classes → is_slot idx off ≡ true → (0 < off) × (off < page_size)
unfolding is_slot
is_slot-bounds idx off h s = ground (arith, s, (slab_size-IsFitting idx h).some_size)

-- The slots of a fresh page are the addresses in it that pass the checks.
pub contains-page :
    (idx page a : ℕ)
    → idx < classes
    → page % 4096 ≡ 0
    → contains (slots_from (capacity idx) (slab_size idx) (page + slab_size idx)) a
      ≡ (page_of a == page && is_slot idx (a - page))
unfolding page_of
contains-page idx page a h aligned =
    both_ways _ _
      (λ listed.
        let at = slots-contains (capacity idx) (slab_size idx) (page + slab_size idx) a listed in
        let off : a - page ≡ slab_size idx + at.0 * slab_size idx = omega (arith, at.1.1) in
        let slot : is_slot idx (a - page) ≡ true = rw off (index-is_slot idx h at.0 at.1.0) in
        let low : page ≤ a = omega (arith, at.1.1) in
        ground (arith, slot, low, is_slot-bounds idx (a - page) h slot, aligned))
      (λ checked.
        let slot : is_slot idx (a - page) ≡ true = ground (arith, checked) in
        let here : a / 4096 * 4096 ≡ page = ground (arith, checked) in
        let at = is_slot-index idx h (a - page) slot in
        let same : page + slab_size idx + at.0 * slab_size idx ≡ a = omega (arith, at.1.1, here) in
        subst
          (λ x.
            contains (slots_from (capacity idx) (slab_size idx) (page + slab_size idx)) x ≡ true)
          same (contains-slots (capacity idx) (slab_size idx) (page + slab_size idx) at.0 at.1.0))
