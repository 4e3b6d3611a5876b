-- ===== src/Error.antt =====
-- error.rs: the error numbers of `HvError`. An error's location and message are for the log only.
use sys_hyper.Base.{ℕ, ◌-◌, ◌^◌}

pub data HvErrorNum : Type 0 where
  eperm enoent eio e2big enomem efault ebusy eexist enodev einval erange enosys : HvErrorNum

unfoldable pub error_number : HvErrorNum → ℕ
error_number HvErrorNum.eperm = 1
error_number HvErrorNum.enoent = 2
error_number HvErrorNum.eio = 5
error_number HvErrorNum.e2big = 7
error_number HvErrorNum.enomem = 12
error_number HvErrorNum.efault = 14
error_number HvErrorNum.ebusy = 16
error_number HvErrorNum.eexist = 17
error_number HvErrorNum.enodev = 19
error_number HvErrorNum.einval = 22
error_number HvErrorNum.erange = 34
error_number HvErrorNum.enosys = 38

-- `HvError::code`, the negated number, as the 64-bit word that a guest register receives.
unfoldable pub code : HvErrorNum → ℕ
unfolding error_number
code e = 2 ^ 64 - error_number e
