-- ===== src/Ownership.antt =====
-- Who owns a page capability (`Cap::Page` of kernel/src/process.rs, with the registry of
-- kernel/src/pages.rs): at most one slot of one process, the process that the registry names.
pub mod Space
pub mod Changes
pub mod Quiet
pub mod Registries
pub mod Transfers
pub mod Invariant
pub mod Grant
pub mod Moved
pub mod Revoke
pub mod Destroy
pub mod Reach
pub mod Exhaustion
use ignium.Pages.Registry.{Registered}
use ignium.Ownership.Space.{Exclusive}
use ignium.Process.Table.{IsValid}
use ignium.Abi.{usize_max}
use ignium.Process.Caps.{cap_at}
use ignium.Memory.{Memory}
use ignium.Process.{Cap, page}
use ignium.Kernel.{PageTable, Kernel, PageRecord}
use ignium.Base.{
  ℕ, zero, suc, ◌+◌, ◌-◌, ◌*◌, ◌≤◌, ◌<◌, ◌≡◌, ◌≢◌, refl, Bool, true, false, ◌&&◌, ◌||◌, Option,
  none, some, List, [], ◌∷◌, ◌++◌, ◌⊎◌, inl, inr, arith, Result, ok, err, ◌==◌, ltb, leb, ◌>>=◌,
  ◌>>◌, if◌then◌else◌, length, get_elem?, set, update, contains, Distinct,
}
use ignium.Pages.{find, max_pages}

-- The owner that the registry names for a page.
unfoldable pub page_owner : PageTable → ℕ → Option ℕ
page_owner t id = elim (find t.pages id) [ none ↦ none | some r ↦ some r.owner ]

pub record Inv {mem : Memory} (k : Kernel mem) : Type 0 where
  pub exclusive : Exclusive (cap_at k.procs) (page_owner k.pages)
  pub registered : Registered k.pages
  pub table : IsValid k.procs
