-- ===== src/Sched/Picks.antt =====
-- The choice of the next thread (kernel/src/sched.rs: `pick_next`).
use ignium.Base.{
  ℕ, zero, suc, ◌+◌, ◌≤◌, ◌<◌, ◌≡◌, ◌≢◌, refl, Bool, true, false, Option, none, some, List, [], ◌∷◌,
  ◌++◌, inl, inr, arith, ◌==◌, if◌then◌else◌, length, Bool-cases, not, subst, sym,
}
use mathlib.Core.List.{append_assoc, append-nil}
use ignium.Base.Counting.{count, count-append}
use ignium.Sched.{
  Thread, pick_level, is_ready, eligible, pick_from, Scheduler, put_queue, put_thread,
}
use ignium.Sched.Queues.{Placed}

pub some≢none : {x : ℕ} → some x ≢ none
some≢none h = cc h

pub some-injective : {x y : ℕ} → some x ≡ some y → x ≡ y
some-injective h = cc h

-- A queue holds ready threads only.
abbrev pub AllReady : (ℕ → Thread) → List ℕ → Type 0
AllReady threads [] = Unit
AllReady threads (id ∷ q) = (is_ready (threads id).state ≡ true) × AllReady threads q

abbrev pub NoneEligible : (ℕ → Thread) → Bool → List ℕ → Type 0
NoneEligible threads need [] = Unit
NoneEligible threads need (id ∷ q) =
    (eligible need (threads id) ≡ false) × NoneEligible threads need q

-- One less of the thread found.
abbrev pub taken : Option ℕ → ℕ → ℕ
taken none id = 0
taken (some x) id = if x == id then 1 else 0

AllReady-push :
    (threads : ℕ → Thread) (q : List ℕ) (id : ℕ)
    → AllReady threads q
    → is_ready (threads id).state ≡ true
    → AllReady threads (q ++ id ∷ [])
AllReady-push threads [] id v e = (e, tt)
AllReady-push threads (x ∷ q) id v e = (v.0, AllReady-push threads q id v.1 e)

-- No thread is lost by the rotation, and the thread found is taken out once.
count-pick_level :
    (threads : ℕ → Thread) (need : Bool) (n : ℕ) (q : List ℕ) (id : ℕ)
    → AllReady threads q
    → count id q
      ≡ taken (pick_level threads need n q).0 id + count id (pick_level threads need n q).1
unfolding pick_level
count-pick_level threads need zero q id v = omega arith
count-pick_level threads need (suc n) [] id v = omega arith
count-pick_level threads need (suc n) (x ∷ q) id v = elim (Bool-cases (eligible need (threads x))) [
  | inl e ↦ rw (v.0, e) (omega arith)
  | inr e ↦
      rw (v.0, e)
        (omega (
          arith,
          count-append id q (x ∷ []),
          count-pick_level threads need n (q ++ x ∷ []) id (AllReady-push threads q x v.1 v.0),
        ))
]

-- The thread found is eligible.
pick_level-eligible :
    (threads : ℕ → Thread) (need : Bool) (n : ℕ) (q : List ℕ) (id : ℕ)
    → (pick_level threads need n q).0 ≡ some id
    → eligible need (threads id) ≡ true
unfolding pick_level
pick_level-eligible threads need zero q id h = ground (arith, h)
pick_level-eligible threads need (suc n) [] id h = ground (arith, h)
pick_level-eligible threads need (suc n) (x ∷ q) id h =
    looked (pick_level-eligible threads need n q id)
      (pick_level-eligible threads need n (q ++ x ∷ []) id) (not (is_ready (threads x).state))
      (eligible need (threads x)) refl h
  where
    looked :
        ((pick_level threads need n q).0 ≡ some id → eligible need (threads id) ≡ true)
        → ((pick_level threads need n (q ++ x ∷ [])).0 ≡ some id
            → eligible need (threads id) ≡ true)
        → (dead fit : Bool) → eligible need (threads x) ≡ fit
        → (if dead
            then pick_level threads need n q
            else if fit
            then (some x, q)
            else pick_level threads need n (q ++ x ∷ [])).0
          ≡ some id
        → eligible need (threads id) ≡ true
    looked a b true fit e h = a h
    looked a b false false e h = b h
    looked a b false true e h = subst (λ y. eligible need (threads y) ≡ true) (some-injective h) e

-- A full round that finds none has seen that none is eligible.
pick_level-none :
    (threads : ℕ → Thread) (need : Bool) (q r : List ℕ)
    → AllReady threads q
    → (pick_level threads need (length q) (q ++ r)).0 ≡ none
    → NoneEligible threads need q
unfolding pick_level
pick_level-none threads need [] r v h = tt
pick_level-none threads need (x ∷ q) r v h =
    looked (pick_level-none threads need q (r ++ x ∷ []) v.1) (is_ready (threads x).state)
      (eligible need (threads x)) v.0 refl h
  where
    looked :
        ((pick_level threads need (length q) (q ++ (r ++ x ∷ []))).0 ≡ none
          → NoneEligible threads need q)
        → (live fit : Bool) → live ≡ true
        → eligible need (threads x) ≡ fit
        → (if not live
            then pick_level threads need (length q) (q ++ r)
            else if fit
            then (some x, q ++ r)
            else pick_level threads need (length q) ((q ++ r) ++ x ∷ [])).0
          ≡ none
        → (eligible need (threads x) ≡ false) × NoneEligible threads need q
    looked rec false fit g e h = ground (arith, g)
    looked rec true true g e h = elim (some≢none h) [ ]
    looked rec true false g e h = (
      e,
      rec (
          subst (λ l. (pick_level threads need (length q) l).0 ≡ none) (append_assoc q r (x ∷ []))
            h),
    )

round-none :
    (threads : ℕ → Thread) (need : Bool) (q : List ℕ)
    → AllReady threads q
    → (pick_level threads need (length q) q).0 ≡ none
    → NoneEligible threads need q
round-none threads need q v h =
    pick_level-none threads need q [] v
      (subst (λ l. (pick_level threads need (length q) l).0 ≡ none) (sym (append-nil q)) h)

-- What a queue holds, read from its counts.
AllReady-count :
    (threads : ℕ → Thread) (q : List ℕ)
    → ((id : ℕ) → 0 < count id q → is_ready (threads id).state ≡ true)
    → AllReady threads q
AllReady-count threads [] h = tt
AllReady-count threads (x ∷ q) h =
    (h x (ground arith), AllReady-count threads q (λ id more. h id (ground (arith, more))))

NoneEligible-count :
    (threads : ℕ → Thread) (need : Bool) (q : List ℕ) (id : ℕ)
    → NoneEligible threads need q
    → 0 < count id q
    → eligible need (threads id) ≡ false
NoneEligible-count threads need [] id v h = ground (arith, h)
NoneEligible-count threads need (x ∷ q) id v h = elim (Bool-cases (x == id)) [
  | inl e ↦
      let same : x ≡ id = ground (arith, e) in
      subst (λ y. eligible need (threads y) ≡ false) same v.0
  | inr e ↦ NoneEligible-count threads need q id v.1 (ground (arith, h, e))
]

-- What the search of `n` levels from `l` has found, and left.
pub record Picked (s : Scheduler) (lev : ℕ → ℕ) (hart : ℕ) (need : Bool) (l n : ℕ)
    (r : Option ℕ × Scheduler) : Type 0 where
  pub placed : Placed r.1 lev
  pub best :
      (id : ℕ)
      → r.0 ≡ some id
      → (is_ready (s.threads id).state ≡ true)
        × ((s.threads id).hart ≡ hart)
        × (eligible need (s.threads id) ≡ true)
        × (l ≤ lev id)
        × ((q : ℕ)
            → is_ready (s.threads q).state ≡ true
            → (s.threads q).hart ≡ hart
            → eligible need (s.threads q) ≡ true
            → l ≤ lev q
            → lev id ≤ lev q)
  pub nothing :
      r.0 ≡ none
      → (q : ℕ) → is_ready (s.threads q).state ≡ true
      → (s.threads q).hart ≡ hart
      → eligible need (s.threads q) ≡ true
      → l ≤ lev q
      → l + n ≤ lev q

pub pick_from-Picked :
    (s : Scheduler) (lev : ℕ → ℕ) (hart : ℕ) (need : Bool) (l n : ℕ)
    → Placed s lev
    → Picked s lev hart need l n (pick_from hart need l n s)
unfolding pick_from put_queue put_thread
pick_from-Picked s lev hart need l zero v = record {
  placed = v;
  best = λ id h. elim (some≢none (sym h)) [ ];
  nothing = λ _ q _ _ _ lo. omega (arith, lo);
}
pick_from-Picked s lev hart need l (suc n) v =
    go (pick_level s.threads need (length queue) queue).0 refl (
      pick_from-Picked (put_queue s hart l (pick_level s.threads need (length queue) queue).1) lev
        hart need (suc l) n)
  where
    queue : List ℕ
    queue = s.ready_queues hart l

    all_ready : AllReady s.threads queue
    all_ready = AllReady-count s.threads queue (λ id more. ground (arith, v hart l id, more))

    left : Option ℕ × List ℕ
    left = pick_level s.threads need (length queue) queue

    go :
        (o : Option ℕ)
        → left.0 ≡ o
        → (Placed (put_queue s hart l left.1) lev
            → Picked
                (put_queue s hart l left.1)
                lev
                hart
                need
                (suc l)
                n
                (pick_from hart need (suc l) n (put_queue s hart l left.1)))
        → Picked s lev hart need l (suc n) (pick_from hart need l (suc n) s)
    go none e rec =
        let full = count-pick_level s.threads need (length queue) queue in
        let p = rec (λ h k id. ground (arith, e, v h k id, full id all_ready)) in
        let seen = round-none s.threads need queue all_ready e in
        rw (pick_from, e)
          (record {
            placed = p.placed;
            best = λ id f.
                let (a, b, c, d, best) = p.best id f in
                (
                  a,
                  b,
                  c,
                  omega (arith, d),
                  λ q r h g lo. best q r h g (
                      ground (
                        arith,
                        lo,
                        v hart l q,
                        r,
                        h,
                        g,
                        NoneEligible-count s.threads need queue q seen,
                      )),
                );
            nothing = λ f q r h g lo. omega (
              arith,
              p.nothing f q r h g (
                  ground (
                    arith,
                    lo,
                    v hart l q,
                    r,
                    h,
                    g,
                    NoneEligible-count s.threads need queue q seen,
                  )),
            );
          })
    go (some x) e rec =
        let full = count-pick_level s.threads need (length queue) queue in
        let fit = pick_level-eligible s.threads need (length queue) queue x e in
        let here : 0 < count x queue = ground (arith, e, full x all_ready) in
        rw (pick_from, e)
          (record {
            placed =
                λ h k id. ground (arith, e, v h k id, v h k x, full id all_ready, here, v hart l x);
            best = λ id f.
                let same : x ≡ id = some-injective f in
                subst
                  (λ y.
                    (is_ready (s.threads y).state ≡ true)
                    × ((s.threads y).hart ≡ hart)
                    × (eligible need (s.threads y) ≡ true)
                    × (l ≤ lev y)
                    × ((q : ℕ)
                        → is_ready (s.threads q).state ≡ true
                        → (s.threads q).hart ≡ hart
                        → eligible need (s.threads q) ≡ true
                        → l ≤ lev q
                        → lev y ≤ lev q))
                  same
                  (
                    ground (arith, v hart l x, here),
                    ground (arith, v hart l x, here),
                    fit,
                    ground (arith, v hart l x, here),
                    λ q r h g lo. ground (arith, v hart l x, here, lo),
                  );
            nothing = λ f. elim (some≢none f) [ ];
          })
