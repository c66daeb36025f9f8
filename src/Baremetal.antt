-- ===== src/Baremetal.antt =====
-- baremetal/lib/syscalls.c: what the C library calls where there is no operating system.
pub mod Heap
pub mod Uart
mod Tests
use linux_kernel_module_chea.Base.{
  ℕ, zero, suc, ◌+◌, ◌-◌, ◌*◌, ◌%◌, ◌^◌, Bool, true, false, Option, none, some, List, [], ◌∷◌, ◌++◌,
  ◌==◌, ltb, if◌then◌else◌, length,
}

-- The addresses that the linker script gives, and how many bits an address has: 32 on arm, 64 on
-- aarch64.
pub record Layout : Type 0 where
  pub address_bits : ℕ
  pub lkmc_heap_low : ℕ
  pub lkmc_heap_top : ℕ

-- The first statement of `_sbrk`: `heap_end` is 0 before the first call.
abbrev pub or_low : Layout → ℕ → ℕ
or_low l heap_end = if heap_end == 0 then l.lkmc_heap_low else heap_end

-- `_sbrk` with an `incr` that is not negative: `heap_end` after the call, and the result, which is 0
-- where there is no room. The sum is an address, and wraps as one; C leaves that to the machine.
unfoldable pub sbrk : Layout → (incr heap_end : ℕ) → ℕ × ℕ
sbrk l incr heap_end =
    let prev_heap_end = or_low l heap_end in
    let sum = (prev_heap_end + incr) % 2 ^ l.address_bits in
    if ltb l.lkmc_heap_top sum then (prev_heap_end, 0) else (sum, prev_heap_end)

-- What the receiver of the UART shows at each look: nothing yet, or a character, which a read of
-- UART_DR takes.
abbrev pub Looks : Type 0
Looks = List (Option ℕ)

-- The loop of `_read` for the characters behind the first: it ends at the first look that shows
-- nothing.
unfoldable pub read_more : ℕ → Looks → List ℕ × Looks
read_more zero looks = ([], looks)
read_more (suc todo) [] = ([], [])
read_more (suc todo) (none ∷ looks) = ([], looks)
read_more (suc todo) (some c ∷ looks) = let (cs, rest) = read_more todo looks in (c ∷ cs, rest)

-- The busy wait for the first character. `none`: it still waits when the looks are over.
unfoldable pub read_first : ℕ → Looks → Option (List ℕ × Looks)
unfolding read_more
read_first more [] = none
read_first more (none ∷ looks) = read_first more looks
read_first more (some c ∷ looks) = let (cs, rest) = read_more more looks in some (c ∷ cs, rest)

-- `_read` with a `len` that is not negative: what it stores at `ptr`, as many characters as its
-- result says.
unfoldable pub read : ℕ → Looks → Option (List ℕ × Looks)
unfolding read_first
read zero looks = some ([], looks)
read (suc len) looks = read_first len looks

-- `_write`: what has been sent, and the result.
unfoldable pub write_all : List ℕ → List ℕ → List ℕ
write_all sent [] = sent
write_all sent (c ∷ cs) = write_all (sent ++ (c ∷ [])) cs

abbrev pub write : (sent ptr : List ℕ) → List ℕ × ℕ
write sent ptr = (write_all sent ptr, length ptr)

-- The calls that always answer the same; `none` stands for the result -1.
abbrev pub close : (file : ℕ) → Option ℕ
close file = none

abbrev pub open_file : (name flags mode : ℕ) → Option ℕ
open_file name flags mode = none

abbrev pub isatty : (file : ℕ) → ℕ
isatty file = 1

abbrev pub lseek : (file ptr dir : ℕ) → ℕ
lseek file ptr dir = 0

-- `_fstat`: `st_mode` and the result. `s_ifchr` is the C library's.
abbrev pub fstat : (s_ifchr file : ℕ) → ℕ × ℕ
fstat s_ifchr file = (s_ifchr, 0)

abbrev pub getpid : ℕ
getpid = 0

-- `_kill`: the status that the program exits with.
abbrev pub kill : (pid sig : ℕ) → ℕ
kill pid sig = 128 + sig

-- `lkmc_baremetal_on_exit_callback`: the status that it prints.
abbrev pub on_exit_callback : (status : ℕ) → Option ℕ
on_exit_callback status = if status == 0 then none else some status

-- `_times_r`: the result and the counter after the call, an unsigned number of 64 bits.
abbrev pub times_r : (t : ℕ) → ℕ × ℕ
times_r t = (t, (t + 1) % 2 ^ 64)
