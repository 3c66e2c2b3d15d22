-- ===== src/Ownership/Space.antt =====
-- The single-reference rule of page capabilities (kernel/src/pages.rs) under each kind of change to
-- the capabilities and to the owners that the registry names.
use ignium.Process.{Cap, page}
use ignium.Base.{ℕ, ◌≡◌, ◌≢◌, Option, none, some, ◌⊎◌, arith, ◌==◌, if◌then◌else◌, ◌∙◌}

abbrev pub Caps : Type 0
Caps = ℕ → ℕ → Option Cap

-- Each page capability is held by the process that the registry names, in one slot only.
pub record Exclusive (caps : ℕ → ℕ → Option Cap) (owner : ℕ → Option ℕ) : Type 0 where
  pub owned : (p s id : ℕ) → caps p s ≡ some (page id) → owner id ≡ some p
  pub single : (p s u id : ℕ) → caps p s ≡ some (page id) → caps p u ≡ some (page id) → s ≡ u

-- No slot gains a page capability.
abbrev pub NoNewPages : Caps → Caps → Type 0
NoNewPages caps caps' = (p s id : ℕ) → caps' p s ≡ some (page id) → caps p s ≡ some (page id)

module _ {caps caps' : Caps} {owner owner' : ℕ → Option ℕ} (v : Exclusive caps owner) where
  pub Exclusive-shrink :
      NoNewPages caps caps' → ((id : ℕ) → owner' id ≡ owner id) → Exclusive caps' owner'
  Exclusive-shrink fewer same = record {
    owned = λ p s id h. same id ∙ v.owned p s id (fewer p s id h);
    single = λ p s u id h g. v.single p s u id (fewer p s id h) (fewer p u id g);
  }

  -- A page leaves the registry, and nobody holds it.
  pub Exclusive-forget :
      (gone : ℕ)
      → NoNewPages caps caps'
      → ((p s : ℕ) → caps' p s ≢ some (page gone))
      → ((id : ℕ) → owner' id ≡ (if gone == id then none else owner id))
      → Exclusive caps' owner'
  Exclusive-forget gone fewer unheld out = record {
    owned = λ p s id h. ground (arith, out id, fewer p s id h, v.owned p s id, unheld p s);
    single = λ p s u id h g. v.single p s u id (fewer p s id h) (fewer p u id g);
  }

  -- A page is owned by `q`, who holds it in the slot `u` and nowhere else.
  pub Exclusive-move :
      (moved q u : ℕ)
      → ((p s id : ℕ)
          → caps' p s ≡ some (page id)
          → ((id ≡ moved) × (p ≡ q) × (s ≡ u)) ⊎ ((id ≢ moved) × (caps p s ≡ some (page id))))
      → ((id : ℕ) → owner' id ≡ (if moved == id then some q else owner id))
      → Exclusive caps' owner'
  Exclusive-move moved q u held out = record {
    owned = λ p s id h. ground (arith, held p s id h, out id, v.owned p s id);
    single = λ p s u' id h g. ground (arith, held p s id h, held p u' id g, v.single p s u' id);
  }

  -- A page that the registry did not know gets an owner, and nobody holds it yet.
  pub Exclusive-issue :
      (new q : ℕ)
      → owner new ≡ none
      → NoNewPages caps caps'
      → ((id : ℕ) → owner' id ≡ (if new == id then some q else owner id))
      → Exclusive caps' owner'
  Exclusive-issue new q unknown fewer out = record {
    owned = λ p s id h. ground (arith, unknown, out id, fewer p s id h, v.owned p s id);
    single = λ p s u id h g. v.single p s u id (fewer p s id h) (fewer p u id g);
  }
