-- ===== src/Sync/Init.antt =====
-- `sync_demo_init` of kernel_modules/sync.c.
use Prim.Native.String.{String}
use linux_kernel_module_chea.Base.{
  ℕ, zero, suc, ◌+◌, ◌-◌, ◌*◌, ◌%◌, ◌^◌, Bool, true, false, Option, none, some, List, ◌==◌, ltb,
  if◌then◌else◌, get_elem?, inl, inr,
}
use linux_kernel_module_chea.Kernel.{Errno, Ret, ok, err, nomem}
use linux_kernel_module_chea.Sync.{
  SyncMode, sync_none, sync_spinlock, sync_mutex, sync_atomic, parse_mode, Pc, waiting, at_head,
  bumping, loading, storing, unlocking, leaving, finished, System, put, run, prepared, complete_all,
}

-- The loop over `start_worker`: how many are started, and the error that ends it.
unfoldable pub start_workers : (kthread_run : ℕ → Option Errno) → (n i : ℕ) → ℕ × Option Errno
start_workers kthread_run zero i = (i, none)
start_workers kthread_run (suc n) i =
    let rest = start_workers kthread_run n (i + 1) in
    elim (kthread_run i) [ none ↦ rest | some e ↦ (i, some e) ]

abbrev pub is_finished : Pc → Bool
is_finished finished = true
is_finished waiting = false
is_finished at_head = false
is_finished bumping = false
is_finished loading = false
is_finished (storing v) = false
is_finished unlocking = false
is_finished leaving = false

-- `kthread_stop`, while the threads run as `ids` says. `none`: it still waits.
unfoldable pub kthread_stop : SyncMode → (iterations : ℕ) → List ℕ → ℕ → System → Option System
unfolding run
kthread_stop m n ids id s = elim (get_elem? s.workers id) [
  | none ↦ some s
  | some w ↦
      let s' = run m n ids (put id (record w { should_stop = true }) s) in
      elim (get_elem? s'.workers id) [
        | none ↦ some s'
        | some w' ↦ if is_finished w'.pc then some s' else none
      ]
]

-- The loop behind `stop_started`, from the last thread to the first.
unfoldable pub stop_started :
    SyncMode → (iterations : ℕ) → (ℕ → List ℕ) → (started : ℕ) → System → Option System
unfolding kthread_stop
stop_started m n ids zero s = some s
stop_started m n ids (suc k) s = elim (kthread_stop m n (ids k) k s) [
  | none ↦ none
  | some s' ↦ stop_started m n ids k s'
]

-- What `sync_demo_init` prints at the end of a run.
pub data Report : Type 0 where
  skewed : (delta expected actual : ℕ) → Report
  no_visible_skew : ℕ → Report
  counter_mismatch : (expected actual : ℕ) → Report
  counter_reached : ℕ → Report

abbrev pub is_atomic : SyncMode → Bool
is_atomic sync_none = false
is_atomic sync_spinlock = false
is_atomic sync_mutex = false
is_atomic sync_atomic = true

abbrev pub actual : SyncMode → System → ℕ
actual m s = if is_atomic m then s.counter_atomic else s.counter_plain

abbrev pub expected : (threads iterations : ℕ) → ℕ
expected threads iterations = threads * iterations % 2 ^ 64

abbrev pub is_none : SyncMode → Bool
is_none sync_none = true
is_none sync_spinlock = false
is_none sync_mutex = false
is_none sync_atomic = false

unfoldable pub report : SyncMode → (expected actual : ℕ) → Report
report m e a =
    if is_none m
    then (let delta = if ltb e a then a - e else e - a in
        if delta == 0 then no_visible_skew e else skewed delta e a)
    else (if a == e then counter_reached a else counter_mismatch e a)

-- The parameters of the module, and the answers of the kernel while it is loaded.
pub record Config : Type 0 where
  pub sync : Option String
  pub threads : ℕ
  pub iterations : ℕ

pub record Answers : Type 0 where
  pub kcalloc : Bool
  pub kthread_run : ℕ → Option Errno
  -- The order in which the threads run, until `all_done` and in each `kthread_stop`.
  pub schedule : List ℕ
  pub stop_schedule : ℕ → List ℕ

-- `threads = 0` is treated as 1.
abbrev pub at_least_one : ℕ → ℕ
at_least_one threads = if threads == 0 then 1 else threads

-- From `start_comp` on: `none` while `wait_for_completion` or a `kthread_stop` still waits.
unfoldable pub collect :
    SyncMode
    → (threads iterations : ℕ) → Answers
    → ℕ × Option Errno
    → Option (Ret × Option Report × System)
unfolding run stop_started report
collect m threads n o (started, some e) =
    elim (stop_started m n o.stop_schedule started (complete_all (prepared threads started))) [
      | none ↦ none
      | some s ↦ some (err e, none, s)
    ]
collect m threads n o (started, none) =
    let s = run m n o.schedule (complete_all (prepared threads started)) in
    if s.all_done then some (ok 0, some (report m (expected threads n) (actual m s)), s) else none

unfoldable pub sync_demo_init :
    (sysfs_streq : String → String → Bool)
    → Config
    → Answers
    → Option (Ret × Option Report × System)
unfolding parse_mode start_workers collect
sync_demo_init sysfs_streq c o =
    let threads = at_least_one c.threads in
    let idle = prepared threads 0 in
    elim (parse_mode sysfs_streq c.sync) [
      | inl e ↦ some (err e, none, idle)
      | inr m ↦
          if o.kcalloc
          then collect m threads c.iterations o (start_workers o.kthread_run threads 0)
          else some (err nomem, none, idle)
    ]
