-- ===== src/Abi.antt =====
-- The system call ABI's numbers (kernel/src/syscall.rs): machine words and error codes.
-- A `usize` is a ℕ; `usize::MAX` is written out.
use ignium.Base.{ℕ, ◌-◌}

abbrev pub usize_max : ℕ
usize_max = 18446744073709551615

abbrev pub page_size : ℕ
page_size = 4096

-- Sv39: user addresses lie below 2^38 (mmu.rs).
abbrev pub user_va_limit : ℕ
user_va_limit = 274877906944

abbrev pub sys_err_einval : ℕ
sys_err_einval = usize_max

abbrev pub sys_err_eacces : ℕ
sys_err_eacces = usize_max - 1

abbrev pub sys_err_enoent : ℕ
sys_err_enoent = usize_max - 2

abbrev pub sys_err_enomem : ℕ
sys_err_enomem = usize_max - 3

abbrev pub sys_err_eexist : ℕ
sys_err_eexist = usize_max - 6

abbrev pub sys_err_enosys : ℕ
sys_err_enosys = usize_max
