-- ===== src/Device.antt =====
-- Device pages for user processes (kernel/src/device.rs). Device 0, the UART, is the only one on the
-- white list.
use ignium.Process.{pid_root}
use ignium.Abi.{sys_err_einval, sys_err_eexist, user_va_limit, page_size, sys_err_eacces}
use ignium.Memory.{Memory}
use ignium.Kernel.{Claim, K, on_store}
use ignium.Base.{
  ℕ, ◌||◌, Option, none, some, Result, ok, err, ◌==◌, leb, ◌>>=◌, ◌>>◌, if◌then◌else◌, update,
  reading, fail_if, not, ◌%◌, or_err,
}

abbrev pub device_flags : ℕ
device_flags = 0xC7

-- `match dev_id { 0 => uart_base(), _ => return Err(EINVAL) }`
abbrev device_base : ℕ → ℕ → Result ℕ ℕ
device_base base dev_id = if dev_id == 0 then ok base else err sys_err_einval

module _ {mem : Memory} where
  -- The match under the lock.
  unfoldable pub claim : ℕ → ℕ → ℕ → ℕ → ℕ → Option Claim → K mem (Unit {0})
  claim caller dev_id va root pa none k =
      let r = on_store (mem.map_device_page root va pa device_flags) k in
      if r.0
      then (
        ok tt,
        record r.1 {
          devices = update r.1.devices dev_id (some (record { owner = caller; va = va }));
        },
      )
      else (err sys_err_einval, r.1)
  claim caller dev_id va root pa (some c) k =
      if not (c.owner == caller)
      then (err sys_err_eexist, k)
      else if not (c.va == va)
      then (err sys_err_einval, k)
      else (ok tt, k)

  unfoldable pub map : ℕ → ℕ → ℕ → K mem (Unit {0})
  unfolding claim
  map caller dev_id va = do
    pa ← reading (λ k. device_base k.uart_base dev_id)
    fail_if (leb user_va_limit va || not (va % page_size == 0) || not (pa % page_size == 0))
        sys_err_einval
    root ← reading (λ k. or_err (pid_root k.procs caller) sys_err_eacces)
    λ k. claim caller dev_id va root pa (k.devices dev_id) k

abbrev unless_owner : ℕ → Option Claim → Option Claim
unless_owner pid none = none
unless_owner pid (some c) = if c.owner == pid then none else some c

unfoldable pub release_all : (ℕ → Option Claim) → ℕ → ℕ → Option Claim
release_all slots pid dev_id = unless_owner pid (slots dev_id)
