-- ===== src/Base/Errors.antt =====
-- What a call of the kernel returns: a value, or ERR with `errno` set by the macro `ERROR` of
-- src/kernel/defs.h.
use asym.Base.{ℕ}

-- the codes of include/stdlib/errno.h that the modelled calls set
pub data Errno : Type 0 where
  ebadf emfile einval epipe eexist epath ebusy eacces efault eisdir enotdir : Errno

pub data Result : Type 0 where
  value : ℕ → Result
  error : Errno → Result
  -- ERR, with the `errno` that a called function has set
  passed_on : Result
