-- ===== src/Scull/Device/Run.antt =====
-- Histories of calls on one bare device.
use linux_kernel_module_chea.Base.{
  ℕ, ◌+◌, ◌*◌, ◌/◌, ◌%◌, ◌^◌, ◌≡◌, Bool, List, [], ◌∷◌, arith, get_or,
}
use native.Mathlib.Nat.{add-mul-div_right, add-mul-mod_self_right}
use linux_kernel_module_chea.Scull.Device.Place.{IsGeometry, itemsize_pos}
use linux_kernel_module_chea.Kernel.{Env, FillsBuffer}
use linux_kernel_module_chea.Scull.Params.{Params}
use linux_kernel_module_chea.Scull.Device.Defs.{Dev, place}
use linux_kernel_module_chea.Scull.Device.Calls.{
  open-IsShaped, scull_read_late-IsShaped, scull_write_late-IsShaped,
}
use linux_kernel_module_chea.Scull.Device.Late.{scull_read_late, scull_write_late}
use linux_kernel_module_chea.Scull.Device.Io.{scull_open}
use linux_kernel_module_chea.Scull.Device.Shape.{IsShaped}

-- A call on the device. The parameters of the driver may be others at each opening. A read or a write
-- reads the geometry of the device before it waits for the lock, and `before` calls get the lock in
-- between.
pub data Call : Type 0 where
  opens : Params → (truncate interrupted : Bool) → Call
  reads writes : (before : ℕ) → Env → (count pos : ℕ) → Call

-- The device as it was `before` calls ago; `past` is the devices before the present one.
abbrev pub seen : Dev → (past : List Dev) → (before : ℕ) → Dev
seen dev past before = get_or (dev ∷ past) before dev

-- The device after a call.
unfoldable pub step : Dev → (past : List Dev) → Call → Dev
unfolding scull_open scull_read_late scull_write_late
step dev past (opens p truncate interrupted) = (scull_open p truncate interrupted dev).0
step dev past (reads before e count pos) =
    let s = seen dev past before in (scull_read_late s.quantum s.qset dev e count pos).dev
step dev past (writes before e count pos) =
    let s = seen dev past before in (scull_write_late s.quantum s.qset dev e count pos).dev

unfoldable pub run : Dev → (past : List Dev) → List Call → Dev
run dev past [] = dev
run dev past (c ∷ cs) = run (step dev past c) (dev ∷ past) cs

-- The copies of a write fill the kernel's buffers, and the geometry that it has read is still that of
-- the device when it gets the lock: no opening has given the device another one in between.
abbrev pub IsCall : Dev → (past : List Dev) → Call → Type 0
IsCall dev past (opens p truncate interrupted) = Unit
IsCall dev past (reads before e count pos) = Unit
IsCall dev past (writes before e count pos) =
    FillsBuffer e.user
    × (((seen dev past before).quantum ≡ dev.quantum) × ((seen dev past before).qset ≡ dev.qset))

unfoldable pub IsRun : Dev → (past : List Dev) → List Call → Type 0
unfolding step
IsRun dev past [] = Unit
IsRun dev past (c ∷ cs) = IsCall dev past c × IsRun (step dev past c) (dev ∷ past) cs

-- The device as `scull_init_module` sets it up, for any parameters.
abbrev pub fresh : (quantum qset : ℕ) → Dev
fresh quantum qset = record { data' = []; quantum = quantum; qset = qset; size = 0 }

step-IsShaped :
    (dev : Dev) (past : List Dev) (c : Call)
    → IsShaped dev
    → IsCall dev past c
    → IsShaped (step dev past c)
unfolding step
step-IsShaped dev past (opens p truncate interrupted) h is =
    open-IsShaped p truncate interrupted dev h
step-IsShaped dev past (reads before e count pos) h is =
    scull_read_late-IsShaped (seen dev past before).quantum (seen dev past before).qset dev e count
      pos h
step-IsShaped dev past (writes before e count pos) h is =
    scull_write_late-IsShaped (seen dev past before).quantum (seen dev past before).qset dev e count
      pos is.1.0 is.1.1 h is.0

run-IsShaped :
    (dev : Dev) (past : List Dev) (cs : List Call)
    → IsShaped dev
    → IsRun dev past cs
    → IsShaped (run dev past cs)
unfolding run IsRun
run-IsShaped dev past [] h is = h
run-IsShaped dev past (c ∷ cs) h is =
    run-IsShaped (step dev past c) (dev ∷ past) cs (step-IsShaped dev past c h is.0) is.1

-- After any history of openings, reads and writes that get the lock in this order, with any outcomes
-- of the kernel's services and with the parameters of the driver changing between the openings, a
-- device is in shape: each array has as many entries as the device's `qset`, and each block as many
-- bytes as its `quantum`. Reads and writes may have waited for the lock while any of the others had
-- it; but no write may have waited while openings gave the device another geometry than the one
-- that it has read before, and the copies of the writes fill the kernel's buffer.
pub run-fresh-IsShaped :
    (quantum qset : ℕ) (cs : List Call)
    → IsRun (fresh quantum qset) [] cs
    → IsShaped (run (fresh quantum qset) [] cs)
run-fresh-IsShaped quantum qset cs is = run-IsShaped (fresh quantum qset) [] cs tt is

-- For a positive geometry whose product fits an `int`, positions that differ by 2 ^ 32 list items
-- lie at one place, for the number of the item is cut to an `int`.
pub place_aliases :
    (quantum qset pos : ℕ)
    → IsGeometry quantum qset
    → place quantum qset (pos + 2 ^ 32 * (quantum * qset)) ≡ place quantum qset pos
unfolding place
place_aliases quantum qset pos g =
    let big = quantum * qset in
    let d : (pos + 2 ^ 32 * big) / big ≡ pos / big + 2 ^ 32 =
      add-mul-div_right pos (2 ^ 32) (itemsize_pos g) in
    let m : (pos + 2 ^ 32 * big) % big ≡ pos % big = add-mul-mod_self_right pos (2 ^ 32) big in
    let w : (pos / big + 2 ^ 32) % 2 ^ 32 ≡ pos / big % 2 ^ 32 = omega arith in rw (d, m, w)
