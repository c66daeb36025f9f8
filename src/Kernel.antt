-- ===== src/Kernel.antt =====
-- What the modules take from the kernel and do not implement: results of system calls, and the
-- outcomes of allocations, locks and user copies, which each operation takes as arguments.
use linux_kernel_module_chea.Base.{ℕ, suc, ◌≡◌, Bool, List, Option, length}

-- The error numbers that the modules return, without their sign.
pub data Errno : Type 0 where
  again busy nomem fault inval notty perm restartsys nospc nodev : Errno

-- The result of an operation. `undefined` stands for a run that C gives no meaning to: a division
-- by zero, an access outside of an object, a loop that counts down from a negative number.
pub data Ret : Type 0 where
  ok : ℕ → Ret
  err : Errno → Ret
  undefined : Ret

-- The outcomes of the allocation calls of one operation, in order: whether each returns memory.
abbrev pub Allocs : Type 0
Allocs = ℕ → Bool

abbrev pub later : Allocs → Allocs
later a n = a (suc n)

-- A byte of kernel memory; `none` if nothing has been stored there since `kmalloc`.
abbrev pub Cell : Type 0
Cell = Option ℕ

-- The user's side of one call. `copy_to_user` says whether some bytes could not be copied out.
-- `copy_from_user n` is what a copy of `n` bytes leaves in the kernel's buffer, and whether some
-- could not be copied in.
pub record User : Type 0 where
  pub copy_to_user : List Cell → Bool
  pub copy_from_user : ℕ → List ℕ × Bool

-- A copy into the kernel fills the kernel's buffer: what cannot be read is zeroed.
pub record FillsBuffer (u : User) : Type 0 where
  pub fills : (n : ℕ) → length (u.copy_from_user n).0 ≡ n

-- The outcomes of the kernel's services during one call.
pub record Env : Type 0 where
  pub interrupted : Bool
  pub allocs : Allocs
  pub user : User

pub ok_inj : {m n : ℕ} → ok m ≡ ok n → m ≡ n
ok_inj h = cc
