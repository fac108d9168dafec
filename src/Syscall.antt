-- ===== src/Syscall.antt =====
-- The checks of user addresses in src/kernel/syscall.c, and the calls that change mappings behind them.
pub mod Safety
mod Tests
use asym.Base.{ℕ, Bool, true, false, not, ◌&&◌, ◌==◌, ltb, if◌then◌else◌, add64}
use asym.Base.Errors.{efault, Result, error}
use asym.Pmm.Bitmap.{Outcome, done}
use asym.Vmm.{Space, vmm_mapped, vmm_unmap, vmm_protect}

-- VMM_LOWER_HALF_MAX
abbrev pub lower_half_max : ℕ
lower_half_max = 0x800000000000

unfoldable pub verify_pointer : ℕ → ℕ → Bool
verify_pointer pointer length =
    if pointer == 0
    then false
    else if ltb lower_half_max (add64 pointer length)
    then false
    else true

unfoldable pub verify_buffer : Space → ℕ → ℕ → Bool
verify_buffer s pointer length =
    if not (verify_pointer pointer length)
    then false
    else if not (vmm_mapped s pointer length)
    then false
    else true

unfoldable pub syscall_munmap : Space → ℕ → ℕ → Outcome (Result × Space)
syscall_munmap s address length =
    if not (verify_pointer address length)
    then done (error efault, s)
    else vmm_unmap s address length

unfoldable pub syscall_mprotect : Space → ℕ → ℕ → ℕ → Outcome (Result × Space)
syscall_mprotect s address length prot =
    if not (verify_pointer address length)
    then done (error efault, s)
    else vmm_protect s address length prot
