-- ===== src/Heap/Linked.antt =====
-- Chains in memory (kernel/src/heap.rs): the pages of a class, and the free slots of a page.
use ignium.Base.{
  ℕ, zero, suc, ◌+◌, ◌≡◌, ◌≤◌, ◌<◌, refl, sym, ◌∙◌, subst, true, false, ◌&&◌, none, some, List, [],
  ◌∷◌, ◌==◌, ltb, leb, length, contains, arith, ◌⊎◌, inl, inr, Bool-cases,
}
use ignium.Base.Links.{Linked}
use ignium.Heap.{done, Heap, sentinel}
use ignium.Heap.Sweep.{counts}
use ignium.Heap.Alloc.{first_free, write, link_slots}

pub counts-Linked :
    (word : ℕ → ℕ) (left slot : ℕ) (xs : List ℕ)
    → Linked word slot sentinel xs
    → counts word left slot ≡ (length xs == left)
unfolding counts
counts-Linked word zero slot [] h = ground (arith, h)
counts-Linked word zero slot (x ∷ xs) h = ground (arith, h)
counts-Linked word (suc left) slot [] h = ground (arith, h)
counts-Linked word (suc left) slot (x ∷ xs) h =
    rw (h.0, h.1.0) (counts-Linked word left (word x) xs h.1.1 ∙ ground arith)

-- The search finds a page of the chain with a free slot, or all of them are full.
pub first_free-Linked :
    {S : Type 0} (h : Heap S) (fuel page : ℕ) (xs : List ℕ)
    → length xs < fuel
    → Linked h.next page 0 xs
    → ((first_free fuel page h ≡ done none)
        × ((p : ℕ) → contains xs p ≡ true → (h.free_list p == sentinel) ≡ true))
      ⊎ ((p : ℕ) × ((first_free fuel page h ≡ done (some p))
            × ((contains xs p ≡ true) × ((h.free_list p == sentinel) ≡ false))))
unfolding first_free
first_free-Linked h zero page xs l c = elim l [ ]
first_free-Linked h (suc fuel) page [] l c = inl (rw c, λ p m. ground (arith, m))
first_free-Linked h (suc fuel) page (x ∷ xs) l c =
    let there : (page == 0) ≡ false = ground (arith, c.0, c.1.0) in
    let here : page ≡ x = c.0 in
    elim (Bool-cases (h.free_list page == sentinel)) [
      | inr has ↦ inr (page, (rw (there, has), (ground (arith, here), has)))
      | inl full ↦
          elim (first_free-Linked h fuel (h.next page) xs (omega (arith, l)) (rw here c.1.1)) [
            | inl none_free ↦ inl (
              rw (there, full) none_free.0,
              λ p m. elim (Bool-cases (x == p)) [
                | inl first_one ↦
                    let q : page ≡ p = here ∙ ground (arith, first_one) in rw q at full
                | inr later ↦ none_free.1 p (ground (arith, m, later))
              ],
            )
            | inr found ↦
                inr (
                  found.0,
                  (rw (there, full) found.1.0, (ground (arith, found.1.1.0), found.1.1.1)),
                )
          ]
    ]

-- The slots of a fresh page.
abbrev pub slots_from : ℕ → ℕ → ℕ → List ℕ
slots_from zero size slot = []
slots_from (suc n) size slot = slot ∷ slots_from n size (slot + size)

-- Exactly `n` slots from `slot` on end by `end`.
abbrev pub Room : ℕ → ℕ → ℕ → ℕ → Type 0
Room zero size end slot = end < slot + size
Room (suc n) size end slot = (slot + size ≤ end) × Room n size end (slot + size)

abbrev pub first : ℕ → ℕ → ℕ
first zero slot = sentinel
first (suc n) slot = slot

-- What `link_slots` leaves in memory.
pub record IsLinked (n size end prev slot : ℕ) (word w : ℕ → ℕ) : Type 0 where
  pub frame : (a : ℕ) → (a == prev) ≡ false → (leb slot a && ltb a end) ≡ false → w a ≡ word a
  pub before : (prev == 0) ≡ false → w prev ≡ first n slot
  pub chain : Linked w (first n slot) sentinel (slots_from n size slot)

pub link_slots-IsLinked :
    (n fuel size end prev slot : ℕ) (word : ℕ → ℕ)
    → n < fuel
    → 0 < size
    → end < sentinel
    → prev < slot
    → Room n size end slot
    → (w : ℕ → ℕ) × ((link_slots fuel size end prev slot word ≡ done w)
        × IsLinked n size end prev slot word w)
unfolding link_slots write
link_slots-IsLinked n zero size end prev slot word l s e p r = elim l [ ]
link_slots-IsLinked zero (suc fuel) size end prev slot word l s e p r =
    let stops : leb (slot + size) end ≡ false = ground (arith, r) in
    (
      write prev sentinel word,
      (
        rw stops,
        record {
          frame = λ a n o. ground (arith, n);
          before = λ n. ground (arith, n);
          chain = refl;
        },
      ),
    )
link_slots-IsLinked (suc n) (suc fuel) size end prev slot word l s e p r =
    let goes : leb (slot + size) end ≡ true = ground (arith, r) in
    let rest =
      link_slots-IsLinked n fuel size end slot (slot + size) (write prev slot word)
        (omega (arith, l)) s e (omega (arith, s)) r.1 in
    let k = rest.1.1 in
    let here : (slot == 0) ≡ false = ground (arith, p) in
    (
      rest.0,
      (
        rw goes rest.1.0,
        record {
          frame = λ a c o.
              k.frame a (ground (arith, o, r.0, s)) (ground (arith, o, s)) ∙ ground (arith, c);
          before = λ c. k.frame prev (ground (arith, p)) (ground (arith, p, s)) ∙ ground (arith, c);
          chain = (
            refl,
            (
              ground (arith, r.0, e),
              subst (λ x. Linked rest.0 x sentinel (slots_from n size (slot + size)))
                  (sym (k.before here)) k.chain,
            ),
          );
        },
      ),
    )

-- Chains in two memories that agree on their elements.
pub Linked-agree :
    (f f' : ℕ → ℕ) (start end : ℕ) (xs : List ℕ)
    → ((a : ℕ) → contains xs a ≡ true → f' a ≡ f a)
    → Linked f start end xs
    → Linked f' start end xs
Linked-agree f f' start end [] k h = h
Linked-agree f f' start end (x ∷ xs) k h =
    let rest = Linked-agree f f' (f x) end xs (λ a c. k a (ground (arith, c))) h.1.1 in
    let same : f' x ≡ f x = k x (ground arith) in
    (h.0, (h.1.0, subst (λ s. Linked f' s end xs) (sym same) rest))
