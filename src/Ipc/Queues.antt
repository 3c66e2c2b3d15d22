-- ===== src/Ipc/Queues.antt =====
-- The queues of kernel/src/ipc.rs as lists: the first element that passes a test, and the elements
-- kept by `retain`.
use ignium.Base.{
  ◌≡◌, refl, Bool, true, false, none, some, List, [], ◌∷◌, ◌++◌, inl, inr, arith, Bool-cases,
  Option-cases, ap, ◌∙◌, sym,
}
use ignium.Ipc.{take_first, retain}

module _ {A : Type 0} (p : A → Bool) where
  -- No element passes the test.
  abbrev pub Never : List A → Type 0
  Never [] = Unit
  Never (x ∷ xs) = (p x ≡ false) × Never xs

  -- `x` is the first element of `xs` that passes the test, and `rest` is `xs` without it, in order.
  pub record IsFirst (xs : List A) (x : A) (rest : List A) : Type 0 where
    pub before : List A
    pub after : List A
    pub split : xs ≡ before ++ x ∷ after
    pub left : rest ≡ before ++ after
    pub passes : p x ≡ true
    pub earlier : Never before

  pub take_first-none : (xs : List A) → take_first p xs ≡ none → Never xs
  unfolding take_first
  take_first-none [] h = tt
  take_first-none (x ∷ xs) h = (ground (arith, h), take_first-none xs (ground (arith, h)))

  pub take_first-some :
      (xs : List A) (x : A) (rest : List A) → take_first p xs ≡ some (x, rest) → IsFirst xs x rest
  unfolding take_first
  take_first-some [] x rest h = ground (arith, h)
  take_first-some (y ∷ xs) x rest h = elim (Bool-cases (p y)) [
    | inl b ↦ record {
      before = [];
      after = xs;
      split = ground (arith, h, b);
      left = ground (arith, h, b);
      passes = ground (arith, h, b);
      earlier = tt;
    }
    | inr b ↦ elim (Option-cases (take_first p xs)) [
      | inl e ↦ ground (arith, h, b, e)
      | inr (r, e) ↦
          let f = take_first-some xs r.0 r.1 e in
          let same : r.0 ≡ x = ground (arith, h, b, e) in
          record {
            before = y ∷ f.before;
            after = f.after;
            split = ap (λ l. y ∷ l) f.split ∙ ap (λ z. y ∷ f.before ++ z ∷ f.after) same;
            left = ground (arith, h, b, e, f.left);
            passes = ap p (sym same) ∙ f.passes;
            earlier = (b, f.earlier);
          }
    ]
  ]

  pub take_first-Never : (xs : List A) → Never xs → take_first p xs ≡ none
  unfolding take_first
  take_first-Never [] h = refl
  take_first-Never (x ∷ xs) h = rw (h.0, take_first-Never xs h.1) refl

  pub take_first-push :
      (xs : List A) (x : A) → Never xs → p x ≡ true → take_first p (xs ++ x ∷ []) ≡ some (x, xs)
  unfolding take_first
  take_first-push [] x h e = rw e refl
  take_first-push (y ∷ xs) x h e = rw (h.0, take_first-push xs x h.1 e) refl

  pub Never-push : (xs : List A) (x : A) → Never xs → p x ≡ false → Never (xs ++ x ∷ [])
  Never-push [] x h e = (e, tt)
  Never-push (y ∷ xs) x h e = (h.0, Never-push xs x h.1 e)

  pub Never-without : (xs : List A) (x : A) (ys : List A) → Never (xs ++ x ∷ ys) → Never (xs ++ ys)
  Never-without [] x ys h = h.1
  Never-without (y ∷ xs) x ys h = (h.0, Never-without xs x ys h.1)

  pub Never-retain : (q : A → Bool) (xs : List A) → Never xs → Never (retain q xs)
  unfolding retain
  Never-retain q [] h = tt
  Never-retain q (x ∷ xs) h = elim (Bool-cases (q x)) [
    | inl b ↦ rw (b, retain) (h.0, Never-retain q xs h.1)
    | inr b ↦ rw (b, retain) (Never-retain q xs h.1)
  ]
