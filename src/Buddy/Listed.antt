-- ===== src/Buddy/Listed.antt =====
-- The pages of the free lists of kernel/src/mem.rs: what `push` makes of the lists.
use ignium.Base.{
  ℕ, zero, suc, ◌+◌, ◌≤◌, ◌<◌, ◌≡◌, refl, ap, sym, subst, true, false, List, ◌∷◌, update, arith,
  inl, inr, Bool-cases, contains, ◌==◌,
}
use ignium.Base.Links.{Linked, Linked-update}
use ignium.Buddy.{Buddy, push, block_size}

-- The links of a free list lead to the block, over blocks that start before `hi`.
pub record Listed (b : Buddy) (hi head order : ℕ) : Type 0 where
  pub earlier : List ℕ
  pub links : Linked b.first_word (b.free_lists order) head earlier
  pub below : (i : ℕ) → contains earlier i ≡ true → i < hi

-- A page lies in a block that exists and is not given out, that starts at `lo` or later, and that stands
-- in the free list of its order.
pub record IsFree (b : Buddy) (lo hi page : ℕ) : Type 0 where
  pub head : ℕ
  pub order : ℕ
  pub starts : lo ≤ head
  pub before : head ≤ page
  pub inside : page < head + block_size order
  pub real : head + block_size order ≤ b.real_count
  pub free : b.meta head ≡ record { order = order; used = false }
  pub listed : Listed b hi head order

pub block_size-suc : (order : ℕ) → block_size (suc order) ≡ block_size order + block_size order
unfolding block_size
block_size-suc order = omega arith

pub block_size_pos : (order : ℕ) → 0 < block_size order
unfolding block_size
block_size_pos zero = omega arith
block_size_pos (suc order) = omega (arith, block_size_pos order)

pub wider : {b : Buddy} {hi hi' head o : ℕ} → hi ≤ hi' → Listed b hi head o → Listed b hi' head o
wider g l = record {
  earlier = l.earlier;
  links = l.links;
  below = λ i c. omega (arith, l.below i c, g);
}

-- A free block that starts later also starts at a lower bound.
pub widen :
    {b : Buddy} {lo lo' hi hi' page : ℕ}
    → lo ≤ lo'
    → hi' ≤ hi
    → IsFree b lo' hi' page
    → IsFree b lo hi page
widen h g f = record {
  head = f.head;
  order = f.order;
  starts = omega (arith, h, f.starts);
  before = f.before;
  inside = f.inside;
  real = f.real;
  free = f.free;
  listed = wider g f.listed;
}

-- A block that is pushed stands before the blocks that the list had.
pub push-Listed :
    (idx order hi head o : ℕ) (b : Buddy)
    → head < idx
    → idx < hi
    → Listed b idx head o
    → Listed (push idx order b) hi head o
unfolding push
push-Listed idx order hi head o b h g l =
    let unlisted : contains l.earlier idx ≡ false = elim (Bool-cases (contains l.earlier idx)) [
      | inl c ↦ absurd (omega (arith, l.below idx c))
      | inr out ↦ out
    ] in
    let kept =
      Linked-update b.first_word (b.free_lists o) head l.earlier idx (b.free_lists order) unlisted
        l.links in
    elim (Bool-cases (order == o)) [
      | inr other ↦ record {
        earlier = l.earlier;
        links = rw other kept;
        below = λ i c. omega (arith, l.below i c, g);
      }
      | inl same ↦
          let e : order ≡ o = ground (arith, same) in
          let written : update b.first_word idx (b.free_lists order) idx ≡ b.free_lists o =
            ground (arith, ap b.free_lists e) in
          record {
            earlier = idx ∷ l.earlier;
            links = rw same (
              refl,
              (
                ground (arith, h),
                subst (λ x. Linked (update b.first_word idx (b.free_lists order)) x head l.earlier)
                    (sym written) kept,
              ),
            );
            below = λ i c. elim (Bool-cases (idx == i)) [
              | inl first ↦ ground (arith, first, g)
              | inr later ↦ omega (arith, l.below i (ground (arith, c, later)), g)
            ];
          }
    ]
