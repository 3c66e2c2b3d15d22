-- ===== src/Heap/Swept.antt =====
-- The loops of the sweep (kernel/src/heap.rs: `sweep_empty_pages`) over a heap in shape.
use mathlib.Core.List.{append_assoc}
use ignium.Base.{
  ℕ, zero, suc, ◌-◌, ◌≡◌, ◌≤◌, ◌<◌, refl, sym, ap, ◌∙◌, subst, true, false, List, [], ◌∷◌, ◌++◌,
  ◌==◌, length, arith, inl, inr, Bool-cases, contains, Distinct-append, ◌⊎◌, contains-append,
}
use ignium.Base.Links.{Linked}
use ignium.Heap.{PageAllocator, Run, done, panic, ◌>>=◌, Heap, classes}
use ignium.Heap.Sweep.{
  slab_page_empty, give_back, drop_page, sweep_chain, sweep_classes, sweep_empty_pages,
}
use ignium.Heap.Shape.{Shape, IsHeap, IsEmpty}
use ignium.Heap.Sweeping.{Swept, Frees, left, left-Swept, left_tail, page-IsEmpty}

module _ (m : PageAllocator) where
  Swept-refl : (g : Shape) (h : Heap m.Store) → IsHeap m g h → Swept m g h h
  Swept-refl g h ok = record {
    shape = g;
    ok = ok;
    same = λ a. refl;
    heads = refl;
    shorter = λ i. omega arith;
    freed = [];
    frees = refl;
    distinct = tt;
    empty = λ p c. absurd (ground (arith, c));
    class_is = λ p. refl;
  }

  Frees-append :
      (ps qs : List ℕ) (s t u : m.Store) → Frees m ps s t → Frees m qs t u → Frees m (ps ++ qs) s u
  Frees-append [] qs s t u f f' = subst (λ x. Frees m qs x u) (sym f) f'
  Frees-append (p ∷ ps) qs s t u f f' = (f.0, Frees-append ps qs (m.free_pages p s).1 t u f.1 f')

  module _ (g : Shape) (h h' : Heap m.Store) (s : Swept m g h h') where
    -- A page that is of a class after part of the sweep has not been given back by it.
    not_freed :
        (p : ℕ) → h'.class_of p < classes → (contains s.freed p ≡ false) × (h.class_of p < classes)
    not_freed p l = ground (arith, l, s.class_is p)

    IsEmpty-before : (p : ℕ) → IsEmpty s.shape h' p → IsEmpty g h p
    IsEmpty-before p e = ((not_freed p e.0).1, λ a at. sym (s.same a) ∙ e.1 a at)

    Swept-trans : (h'' : Heap m.Store) → Swept m s.shape h' h'' → Swept m g h h''
    Swept-trans h'' t = record {
      shape = t.shape;
      ok = t.ok;
      same = λ a. t.same a ∙ s.same a;
      heads = t.heads ∙ s.heads;
      shorter = λ i. omega (arith, t.shorter i, s.shorter i);
      freed = s.freed ++ t.freed;
      frees = Frees-append s.freed t.freed h.store h'.store h''.store s.frees t.frees;
      distinct =
          Distinct-append s.freed t.freed s.distinct t.distinct
            (λ p c. (not_freed p (t.empty p c).0).0);
      empty = λ p c. elim (Bool-cases (contains s.freed p)) [
        | inl before ↦ s.empty p before
        | inr later ↦
            IsEmpty-before p
              (t.empty p (ground (arith, contains-append s.freed t.freed p, c, later)))
      ];
      class_is = λ p. ground (arith, s.class_is p, t.class_is p, contains-append s.freed t.freed p);
    }

  -- After part of the sweep the allocator refuses a page that is empty and has not been given back.
  pub record Stuck (g : Shape) (h : Heap m.Store) : Type 0 where
    pub reached : Heap m.Store
    pub swept : Swept m g h reached
    pub page : ℕ
    pub empty : IsEmpty g h page
    pub held : reached.class_of page < classes
    pub refused : (m.free_pages page reached.store).0 ≡ false

  -- The loop ends in a heap in shape, or is stuck.
  abbrev pub Ends : Shape → Heap m.Store → Run (Heap m.Store) → Type 0
  Ends g h r = ((h' : Heap m.Store) × ((r ≡ done h') × Swept m g h h')) ⊎ ((r ≡ panic) × Stuck g h)

  Ends-same :
      (g : Shape) (h : Heap m.Store) (r r' : Run (Heap m.Store)) → r ≡ r' → Ends g h r' → Ends g h r
  Ends-same g h r r' e t = subst (Ends g h) (sym e) t

  -- A part of the sweep before.
  Ends-after :
      (g : Shape) (h h' : Heap m.Store) (s : Swept m g h h') (r r' : Run (Heap m.Store))
      → r ≡ r'
      → Ends s.shape h' r'
      → Ends g h r
  Ends-after g h h' s r r' e (inl t) = inl (t.0, (e ∙ t.1.0, Swept-trans g h h' s t.0 t.1.1))
  Ends-after g h h' s r r' e (inr t) = inr (
    e ∙ t.0,
    record {
      reached = t.1.reached;
      swept = Swept-trans g h h' s t.1.reached t.1.swept;
      page = t.1.page;
      empty = IsEmpty-before g h h' s t.1.page t.1.empty;
      held = t.1.held;
      refused = t.1.refused;
    },
  )

  chain_head :
      (f : ℕ → ℕ) (start : ℕ) (xs : List ℕ)
      → (start == 0) ≡ false
      → Linked f start 0 xs
      → (rest : List ℕ) × ((xs ≡ start ∷ rest) × Linked f (f start) 0 rest)
  chain_head f start [] n c = absurd (ground (arith, n, c))
  chain_head f start (x ∷ rest) n c = (rest, (rw c.0 refl, rw c.0 c.1.1))

  give_back-accepted :
      (page : ℕ) (h : Heap m.Store)
      → (m.free_pages page h.store).0 ≡ true
      → give_back m page h ≡ done (record h { store = (m.free_pages page h.store).1 })
  unfolding give_back
  give_back-accepted page h o = rw o refl

  give_back-refused :
      (page : ℕ) (h : Heap m.Store)
      → (m.free_pages page h.store).0 ≡ false
      → give_back m page h ≡ panic
  unfolding give_back
  give_back-refused page h o = rw o refl

  sweep_chain-Ends :
      (fuel idx prev page : ℕ) (pre rest : List ℕ) (g : Shape) (h : Heap m.Store)
      → idx < classes
      → IsHeap m g h
      → g.pages idx ≡ pre ++ prev ∷ rest
      → Linked h.next page 0 rest
      → length rest < fuel
      → Ends g h (sweep_chain m fuel idx prev page h)
  unfolding sweep_chain ◌>>=◌ drop_page
  sweep_chain-Ends zero idx prev page pre rest g h l ok is c f = elim f [ ]
  sweep_chain-Ends (suc fuel) idx prev page pre [] g h l ok is c f =
      inl (h, (rw c, Swept-refl g h ok))
  sweep_chain-Ends (suc fuel) idx prev page pre (x ∷ rest) g h l ok is c f =
      let there : (page == 0) ≡ false = ground (arith, c.0, c.1.0) in
      let here : x ≡ page = sym c.0 in
      let at : g.pages idx ≡ pre ++ prev ∷ page ∷ rest =
        subst (λ y. g.pages idx ≡ pre ++ prev ∷ y ∷ rest) here is in
      let tail : Linked h.next (h.next page) 0 rest =
        subst (λ y. Linked h.next (h.next y) 0 rest) here c.1.1 in
      elim (Bool-cases (slab_page_empty page idx h)) [
        | inr used ↦
            let moved : g.pages idx ≡ (pre ++ prev ∷ []) ++ page ∷ rest =
              at ∙ sym (append_assoc pre (prev ∷ []) (page ∷ rest)) in
            Ends-same g h _ _ (rw (there, used) refl) (
              sweep_chain-Ends fuel idx page (h.next page) (pre ++ prev ∷ []) rest g h l ok moved
                tail (omega (arith, f)))
        | inl empty ↦ elim (Bool-cases (m.free_pages page h.store).0) [
          | inr refused ↦ inr (
            rw (there, empty, give_back-refused page (drop_page m prev page h) refused) refl,
            record {
              reached = h;
              swept = Swept-refl g h ok;
              page = page;
              empty = page-IsEmpty m g h idx prev page pre rest ok l at empty;
              held = (page-IsEmpty m g h idx prev page pre rest ok l at empty).0;
              refused = refused;
            },
          )
          | inl accepted ↦
              let s = (m.free_pages page h.store).1 in
              let h1 = left m g h idx prev page pre rest ok l at empty s in
              let both = left-Swept m g h idx prev page pre rest ok l at empty s accepted refl in
              Ends-after g h h1 both.0 _ _
                (rw (there, empty, give_back-accepted page (drop_page m prev page h) accepted) refl)
                (sweep_chain-Ends fuel idx prev (h.next page) pre rest both.0.shape h1 l both.0.ok
                  both.1 (left_tail m g h idx prev page pre rest ok l at empty s tail)
                  (omega (arith, f)))
        ]
      ]

  sweep_classes-Ends :
      (fuel left : ℕ) (g : Shape) (h : Heap m.Store)
      → left ≤ classes
      → IsHeap m g h
      → ((i : ℕ) → length (g.pages i) < fuel)
      → Ends g h (sweep_classes m fuel left h)
  unfolding sweep_classes ◌>>=◌
  sweep_classes-Ends fuel zero g h l ok f = inl (h, (refl, Swept-refl g h ok))
  sweep_classes-Ends fuel (suc left) g h l ok f =
      let idx = classes - suc left in
      let i_lt : idx < classes = omega (arith, l) in
      elim (Bool-cases (h.head idx == 0)) [
        | inl none_here ↦
            Ends-same g h _ _ (rw none_here refl)
              (sweep_classes-Ends fuel left g h (omega (arith, l)) ok f)
        | inr some_here ↦
            let c = chain_head h.next (h.head idx) (g.pages idx) some_here (ok.chain idx i_lt) in
            elim (sweep_chain-Ends fuel idx (h.head idx) (h.next (h.head idx)) [] c.0 g h i_lt ok
              c.1.0 c.1.1 (omega (arith, f idx, ap (λ (q : List ℕ). length q) c.1.0))) [
                | inr stuck ↦ inr (rw (some_here, stuck.0) refl, stuck.1)
                | inl first ↦
                    Ends-after g h first.0 first.1.1 _ _ (rw (some_here, first.1.0) refl) (
                      sweep_classes-Ends fuel left first.1.1.shape first.0 (omega (arith, l))
                        first.1.1.ok (λ i. omega (arith, f i, first.1.1.shorter i)))
              ]
      ]

  pub sweep_empty_pages-Ends :
      (fuel : ℕ) (g : Shape) (h : Heap m.Store)
      → IsHeap m g h
      → ((i : ℕ) → length (g.pages i) < fuel)
      → Ends g h (sweep_empty_pages m fuel h)
  unfolding sweep_empty_pages
  sweep_empty_pages-Ends fuel g h ok f = sweep_classes-Ends fuel classes g h (omega arith) ok f
