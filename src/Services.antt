-- ===== src/Services.antt =====
-- The registry of user-space services (kernel/src/services.rs) and `register_service` of
-- kernel/src/process.rs, which holds the process table's lock around it.
use ignium.Process.{find}
use ignium.Process.{grant_cap, cap_errno, max_caps, clear_cap}
use ignium.Abi.{sys_err_einval, sys_err_eexist, sys_err_eacces, sys_err_enoent}
use ignium.Kernel.{ServiceEntry, Kernel, K}
use ignium.Memory.{Memory}
use ignium.Base.{
  ℕ, ◌||◌, Option, none, some, Result, ok, err, ◌==◌, leb, ◌>>=◌, ◌>>◌, if◌then◌else◌, update,
  reading, or_err, fail_if,
}

abbrev pub max_services : ℕ
max_services = 8

unfoldable pub register_locked :
    (ℕ → Option ServiceEntry) → ℕ → ℕ → Result (Unit {0}) ℕ × (ℕ → Option ServiceEntry)
register_locked slots pid id =
    if id == 0 || leb max_services id then (err sys_err_einval, slots) else elim (slots id) [
      | some entry ↦ (err sys_err_eexist, slots)
      | none ↦ (ok tt, update slots id (some (record { id = id; pid = pid })))
    ]

abbrev unless_pid : ℕ → Option ServiceEntry → Option ServiceEntry
unless_pid pid none = none
unless_pid pid (some entry) = if entry.pid == pid then none else some entry

unfoldable pub unregister_all_locked : (ℕ → Option ServiceEntry) → ℕ → ℕ → Option ServiceEntry
unregister_all_locked slots pid id = unless_pid pid (slots id)

abbrev with_id : ℕ → Option ServiceEntry → Option ℕ
with_id id none = none
with_id id (some entry) = if entry.id == id then some entry.pid else none

unfoldable pub lookup : (ℕ → Option ServiceEntry) → ℕ → Option ℕ
lookup slots id = if leb max_services id then none else with_id id (slots id)

module _ {mem : Memory} where
  unfoldable pub register_service : ℕ → ℕ → K mem (Unit {0})
  register_service pid id k = elim (find k.procs.slots pid) [
    | none ↦ (err sys_err_eacces, k)
    | some p ↦ let r = register_locked k.services pid id in (r.0, record k { services = r.1 })
  ]

  -- `if let Err(e) = grant_cap(..) { undo; return Err(cap_errno(e)); }`
  unfoldable pub give : ℕ → ℕ → ℕ → (Kernel mem → Kernel mem) → K mem (Unit {0})
  give pid slot target undo k =
      let r = grant_cap k.procs pid slot target in
      elim r.0 [ ok u ↦ (ok tt, record k { procs = r.1 }) | err e ↦ (err (cap_errno e), undo k) ]

  unfoldable pub connect : ℕ → ℕ → ℕ → ℕ → K mem (Unit {0})
  unfolding give
  connect caller id client_slot server_slot = do
    server ← reading (λ k. or_err (lookup k.services id) sys_err_enoent)
    fail_if (server == caller) sys_err_eacces
    fail_if (leb max_caps client_slot || leb max_caps server_slot) sys_err_einval
    give caller client_slot server (λ k. k)
    give server server_slot caller
        (λ k. record k { procs = (clear_cap k.procs caller client_slot).1 })
