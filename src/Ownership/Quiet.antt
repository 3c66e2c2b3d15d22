-- ===== src/Ownership/Quiet.antt =====
-- Kernel operations that leave the page registry alone and give no page capability (kernel/src/shm.rs,
-- services.rs and device.rs), by a rule for each way in which their code is put together.
use ignium.Process.Table.{IsValid}
use ignium.Process.Caps.{cap_at}
use ignium.Ownership.Space.{NoNewPages}
use ignium.Kernel.{Kernel}
use ignium.Memory.{Memory}
use ignium.Base.{
  ◌≡◌, refl, Bool, true, false, Result, ok, err, ◌>>=◌, ◌>>◌, if◌then◌else◌, Op, fail_if, reading,
  ◌∙◌, resume, return,
}

pub record Quiet {mem : Memory} (k k' : Kernel mem) : Type 0 where
  pub fewer : NoNewPages (cap_at k.procs) (cap_at k'.procs)
  pub same : k'.pages ≡ k.pages
  pub valid : IsValid k.procs → IsValid k'.procs

module _ {mem : Memory} where
  pub Quiet-refl : (k : Kernel mem) → Quiet k k
  Quiet-refl k = record { fewer = λ p s id h. h; same = refl; valid = λ v. v }

  pub Quiet-trans : {k l n : Kernel mem} → Quiet k l → Quiet l n → Quiet k n
  Quiet-trans q r = record {
    fewer = λ p s id h. q.fewer p s id (r.fewer p s id h);
    same = r.same ∙ q.same;
    valid = λ v. r.valid (q.valid v);
  }

  -- A change of the process table alone.
  pub Quiet-procs :
      (k k' : Kernel mem)
      → NoNewPages (cap_at k.procs) (cap_at k'.procs)
      → (IsValid k.procs → IsValid k'.procs)
      → k'.pages ≡ k.pages
      → Quiet k k'
  Quiet-procs k k' f v e = record { fewer = f; same = e; valid = v }

  -- A change of what is neither the process table nor the page registry.
  pub Quiet-else : (k k' : Kernel mem) → k'.procs ≡ k.procs → k'.pages ≡ k.pages → Quiet k k'
  Quiet-else k k' e f = record { fewer = λ p s id h. rw e at h; same = f; valid = λ v. rw e v }

-- Every run of the operation is quiet, whatever it returns.
pub record Always {mem : Memory} {E A : Type 0} (m : Op (Kernel mem) E A) : Type 0 where
  pub run : (k : Kernel mem) → Quiet k (m k).1

module _ {mem : Memory} {E A B : Type 0} where
  resume-Quiet :
      (k : Kernel mem) (r : Result A E × Kernel mem) (f : A → Op (Kernel mem) E B)
      → Quiet k r.1
      → ((a : A) → Always (f a))
      → Quiet k (resume r f).1
  resume-Quiet k (ok a, l) f q h = Quiet-trans q ((h a).run l)
  resume-Quiet k (err e, l) f q h = q

  pub >>=-Always :
      {m : Op (Kernel mem) E A} {f : A → Op (Kernel mem) E B}
      → Always m
      → ((a : A) → Always (f a))
      → Always (m >>= f)
  unfolding ◌>>=◌
  >>=-Always {m} {f} q h = record { run = λ k. resume-Quiet k (m k) f (q.run k) h }

module _ {mem : Memory} {E A : Type 0} where
  pub >>-Always :
      {m : Op (Kernel mem) E (Unit {0})} {n : Op (Kernel mem) E A}
      → Always m
      → Always n
      → Always (m >> n)
  unfolding ◌>>◌
  >>-Always q h = >>=-Always q (λ _. h)

  pub reading-Always : (f : Kernel mem → Result A E) → Always (reading f)
  unfolding reading
  reading-Always f = record { run = λ k. Quiet-refl k }

  pub return-Always : (a : A) → Always (return {S = Kernel mem} {E = E} a)
  unfolding return
  return-Always a = record { run = λ k. Quiet-refl k }

  pub if-Quiet :
      (k : Kernel mem) (b : Bool) (r s : Result A E × Kernel mem)
      → Quiet k r.1
      → Quiet k s.1
      → Quiet k (if b then r else s).1
  if-Quiet k true r s p q = p
  if-Quiet k false r s p q = q

module _ {mem : Memory} {E : Type 0} where
  pub fail_if-Always : (b : Bool) (e : E) → Always (fail_if {S = Kernel mem} b e)
  unfolding fail_if
  fail_if-Always true e = record { run = λ k. Quiet-refl k }
  fail_if-Always false e = record { run = λ k. Quiet-refl k }
