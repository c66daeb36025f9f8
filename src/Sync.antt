-- ===== src/Sync.antt =====
-- kernel_modules/sync.c: threads that increment a shared counter, without a lock, under a spin lock
-- or a mutex, or by an atomic operation.
pub mod Totals
pub mod Locked
pub mod Moves
pub mod Steps
pub mod Rank
pub mod Init
pub mod Outcome
pub mod Progress
mod Tests
use Prim.Native.String.{String}
use linux_kernel_module_chea.Base.{
  ℕ, zero, suc, ◌+◌, ◌-◌, ◌*◌, ◌%◌, ◌^◌, Bool, true, false, not, ◌&&◌, ◌||◌, Option, none, some,
  List, [], ◌∷◌, ◌==◌, ltb, if◌then◌else◌, replicate, get_elem?, set, ◌⊎◌, inl, inr,
}
use linux_kernel_module_chea.Kernel.{Errno, Ret, ok, err, nomem, inval}

-- `enum sync_mode`.
pub data SyncMode : Type 0 where
  sync_none sync_spinlock sync_mutex sync_atomic : SyncMode

unfoldable pub mode_to_string : SyncMode → String
mode_to_string sync_none = "none"
mode_to_string sync_spinlock = "spinlock"
mode_to_string sync_mutex = "mutex"
mode_to_string sync_atomic = "atomic"

-- `parse_mode`: the mode or an error. `sysfs_streq` is the kernel's; `none` is a null pointer.
unfoldable pub parse_mode :
    (sysfs_streq : String → String → Bool) → Option String → Errno ⊎ SyncMode
parse_mode sysfs_streq none = inl inval
parse_mode sysfs_streq (some value) =
    if sysfs_streq value "none"
    then inr sync_none
    else (if sysfs_streq value "spinlock"
        then inr sync_spinlock
        else (if sysfs_streq value "mutex"
            then inr sync_mutex
            else (if sysfs_streq value "atomic" then inr sync_atomic else inl inval)))

-- Where a thread stands in `worker_fn`: before the completion; at the head of the loop; in
-- `bump_counter` before the lock, before the load and before the store of `counter_plain++` (with
-- what has been loaded), and before the unlocking; behind the loop; and returned.
pub data Pc : Type 0 where
  waiting at_head bumping loading : Pc
  storing : ℕ → Pc
  unlocking leaving finished : Pc

pub record Worker : Type 0 where
  pub i : ℕ
  pub pc : Pc
  pub should_stop : Bool

-- The variables that the threads share. `counter_lock` is the lock of the mode, with the thread that
-- holds it.
pub record System : Type 0 where
  pub workers : List Worker
  pub start_comp : Bool
  pub threads_left : ℕ
  pub all_done : Bool
  pub counter_plain : ℕ
  pub counter_atomic : ℕ
  pub counter_lock : Option ℕ

abbrev pub put : ℕ → Worker → System → System
put id w s = record s { workers = set s.workers id w }

-- The end of an iteration.
abbrev pub next : Worker → Worker
next w = record w { i = w.i + 1; pc = at_head }

-- `bump_counter` up to its first `switch`: the atomic increment, or the lock. `none`: the lock is
-- not free.
unfoldable pub bump_counter : SyncMode → ℕ → Worker → System → Option System
bump_counter sync_atomic id w s =
    some (record (put id (next w) s) { counter_atomic = (s.counter_atomic + 1) % 2 ^ 64 })
bump_counter sync_none id w s = some (put id (record w { pc = loading }) s)
bump_counter sync_spinlock id w s = elim s.counter_lock [
  | none ↦ some (record (put id (record w { pc = loading }) s) { counter_lock = some id })
  | some owner ↦ none
]
bump_counter sync_mutex id w s = elim s.counter_lock [
  | none ↦ some (record (put id (record w { pc = loading }) s) { counter_lock = some id })
  | some owner ↦ none
]

-- The second `switch`.
abbrev pub unlocked : SyncMode → Option ℕ → Option ℕ
unlocked sync_none l = l
unlocked sync_spinlock l = none
unlocked sync_mutex l = none
unlocked sync_atomic l = l

-- One step of the thread `id` of `worker_fn`, which stands at `w`. `none`: it cannot go on.
unfoldable pub worker_fn : SyncMode → (iterations id : ℕ) → Worker → Pc → System → Option System
unfolding bump_counter
worker_fn m n id w waiting s =
    if s.start_comp then some (put id (record w { pc = at_head }) s) else none
worker_fn m n id w at_head s =
    if ltb w.i n && not w.should_stop
    then some (put id (record w { pc = bumping }) s)
    else some (put id (record w { pc = leaving }) s)
worker_fn m n id w bumping s = bump_counter m id w s
worker_fn m n id w loading s = some (put id (record w { pc = storing s.counter_plain }) s)
worker_fn m n id w (storing v) s =
    some (record (put id (record w { pc = unlocking }) s) { counter_plain = (v + 1) % 2 ^ 64 })
worker_fn m n id w unlocking s =
    some (record (put id (next w) s) { counter_lock = unlocked m s.counter_lock })
worker_fn m n id w leaving s =
    let left = (s.threads_left + (2 ^ 32 - 1)) % 2 ^ 32 in
    some (record (put id (record w { pc = finished }) s) {
      threads_left = left;
      all_done = left == 0 || s.all_done;
    })
worker_fn m n id w finished s = none

unfoldable pub step : SyncMode → (iterations id : ℕ) → System → Option System
unfolding worker_fn
step m n id s = elim (get_elem? s.workers id) [ none ↦ none | some w ↦ worker_fn m n id w w.pc s ]

-- The threads run in the order of a schedule; one that cannot go on stays where it is.
unfoldable pub run : SyncMode → (iterations : ℕ) → List ℕ → System → System
unfolding step
run m n [] s = s
run m n (id ∷ ids) s = elim (step m n id s) [ none ↦ run m n ids s | some s' ↦ run m n ids s' ]

abbrev pub new_worker : Worker
new_worker = record { i = 0; pc = waiting; should_stop = false }

-- What `sync_demo_init` sets up for its threads, of which `started` have been started.
abbrev pub prepared : (threads started : ℕ) → System
prepared threads started = record {
  workers = replicate started new_worker;
  start_comp = false;
  threads_left = threads % 2 ^ 32;
  all_done = false;
  counter_plain = 0;
  counter_atomic = 0;
  counter_lock = none;
}

abbrev pub complete_all : System → System
complete_all s = record s { start_comp = true }
