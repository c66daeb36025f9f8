-- ===== src/Scull/Access.antt =====
-- The devices of kernel_modules/scull.c that control who may open them: scullsingle, sculluid,
-- scullwuid and scullpriv.
pub mod Exclusion
pub mod Ownership
pub mod Cloning
mod Tests
use linux_kernel_module_chea.Base.{
  ℕ, ◌+◌, ◌-◌, ◌%◌, ◌^◌, Bool, true, false, not, ◌&&◌, ◌||◌, Option, none, some, List, [], ◌∷◌, ltb,
  ◌==◌, if◌then◌else◌,
}
use linux_kernel_module_chea.Kernel.{Ret, ok, err, busy, again, restartsys, inval, nomem}
use linux_kernel_module_chea.Scull.Params.{Params}
use linux_kernel_module_chea.Scull.Device.Defs.{Dev, scull_trim}

-- `atomic_dec_and_test` and `atomic_inc` of an `atomic_t`, which is its pattern.
abbrev pub atomic_dec_and_test : ℕ → ℕ × Bool
atomic_dec_and_test v = let w = (v + 2 ^ 32 - 1) % 2 ^ 32 in (w, w == 0)

abbrev pub atomic_inc : ℕ → ℕ
atomic_inc v = (v + 1) % 2 ^ 32

abbrev pub open_dev : Params → (truncate : Bool) → Dev → Dev
open_dev p truncate dev = if truncate then (scull_trim p dev).0 else dev

-- The single-open device: `scull_s_available`, how many files have it open, how many callers of
-- `scull_s_open` have failed its test and not yet undone their decrement, and the device.
pub record Single : Type 0 where
  pub scull_s_available : ℕ
  pub files : ℕ
  pub backing_out : ℕ
  pub scull_s_device : Dev

-- What runs without interruption in `scull_s_open` and `scull_s_release`: the test with what a
-- success does, the increment after a failure, and the release.
pub data SingleStep : Type 0 where
  tests : (truncate : Bool) → SingleStep
  backs_out releases : SingleStep

-- A step, and the result where it ends a call; `none` where no caller is there to make it.
unfoldable pub single_step : Params → SingleStep → Single → Option (Single × Option Ret)
single_step p (tests truncate) s =
    let (v, last) = atomic_dec_and_test s.scull_s_available in
    some (
      if last
      then (
        record {
          scull_s_available = v;
          files = s.files + 1;
          backing_out = s.backing_out;
          scull_s_device = open_dev p truncate s.scull_s_device;
        },
        some (ok 0),
      )
      else (record s { scull_s_available = v; backing_out = s.backing_out + 1 }, none))
single_step p backs_out s =
    if s.backing_out == 0
    then none
    else some (
      record s {
        scull_s_available = atomic_inc s.scull_s_available;
        backing_out = s.backing_out - 1;
      },
      some (err busy),
    )
single_step p releases s =
    if s.files == 0
    then none
    else some (
      record s { scull_s_available = atomic_inc s.scull_s_available; files = s.files - 1 },
      some (ok 0),
    )

-- A caller: its user, its effective user, and whether it has CAP_DAC_OVERRIDE.
pub record Task : Type 0 where
  pub uid : ℕ
  pub euid : ℕ
  pub dac_override : Bool

-- A device with an owner: `scull_u_count` and `scull_u_owner`, or `scull_w_count` and
-- `scull_w_owner`.
pub record Owned : Type 0 where
  pub count : ℕ
  pub owner : ℕ
  pub dev : Dev

-- `scull_w_available`.
unfoldable pub scull_w_available : Task → Owned → Bool
scull_w_available t o = o.count == 0 || (o.owner == t.uid || (o.owner == t.euid || t.dac_override))

-- The second half of `scull_u_open` and `scull_w_open`.
abbrev pub grab : Params → (truncate : Bool) → Task → Owned → Owned
grab p truncate t o = record {
  count = (o.count + 1) % 2 ^ 32;
  owner = if o.count == 0 then t.uid else o.owner;
  dev = open_dev p truncate o.dev;
}

unfoldable pub scull_u_open : Params → (truncate : Bool) → Task → Owned → Owned × Ret
scull_u_open p truncate t o =
    if not (o.count == 0)
      && (not (o.owner == t.uid) && (not (o.owner == t.euid) && not t.dac_override))
    then (o, err busy)
    else (grab p truncate t o, ok 0)

unfoldable pub scull_u_release : Owned → Owned × Ret
scull_u_release o = (record o { count = (o.count + 2 ^ 32 - 1) % 2 ^ 32 }, ok 0)

-- How a wait in `scull_w_open` ends: by a signal, or with the device as it is then.
pub data OwnerWake : Type 0 where
  signal : OwnerWake
  woken : Owned → OwnerWake

-- The outcome of `scull_w_open`: it waits, fails, or leaves the device opened.
pub data Opening : Type 0 where
  asleep : Opening
  fails : Ret → Opening
  opened : Owned → Opening

abbrev pub on_owner_wake : OwnerWake → (Owned → Opening) → Opening
on_owner_wake signal k = fails (err restartsys)
on_owner_wake (woken o) k = k o

unfoldable pub scull_w_open :
    Params → (truncate nonblock : Bool) → Task → Owned → List OwnerWake → Opening
unfolding scull_w_available
scull_w_open p truncate nonblock t o [] =
    if scull_w_available t o
    then opened (grab p truncate t o)
    else (if nonblock then fails (err again) else asleep)
scull_w_open p truncate nonblock t o (w ∷ ws) =
    let rest = on_owner_wake w (λ o'. scull_w_open p truncate nonblock t o' ws) in
    if scull_w_available t o
    then opened (grab p truncate t o)
    else (if nonblock then fails (err again) else rest)

-- `scull_w_release`, and whether it wakes those who wait.
unfoldable pub scull_w_release : Owned → Owned × Bool
scull_w_release o =
    let temp = (o.count + 2 ^ 32 - 1) % 2 ^ 32 in (record o { count = temp }, temp == 0)

-- `scull_c_list`: the cloned devices, each with its key, the newest first.
abbrev pub Clones : Type 0
Clones = List (ℕ × Dev)

unfoldable pub find_clone : ℕ → Clones → Option Dev
find_clone key [] = none
find_clone key (c ∷ cs) = if c.0 == key then some c.1 else find_clone key cs

-- What is done through the pointer that `scull_c_lookfor_device` returns.
unfoldable pub update_clone : ℕ → (Dev → Dev) → Clones → Clones
update_clone key f [] = []
update_clone key f (c ∷ cs) =
    let rest = update_clone key f cs in if c.0 == key then (c.0, f c.1) ∷ cs else c ∷ rest

-- A `struct scull_listitem` of zeros.
abbrev pub zeroed : Dev
zeroed = record { data' = []; quantum = 0; qset = 0; size = 0 }

-- `scull_c_lookfor_device`: the list with the device in it, or `none` without memory.
unfoldable pub scull_c_lookfor_device : Params → (alloc : Bool) → ℕ → Clones → Option Clones
unfolding find_clone
scull_c_lookfor_device p alloc key cs = elim (find_clone key cs) [
  | some d ↦ some cs
  | none ↦ if alloc then some ((key, (scull_trim p zeroed).0) ∷ cs) else none
]

-- `scull_c_open`. `tty` is the number of the controlling terminal, if there is one.
unfoldable pub scull_c_open :
    Params → (truncate alloc : Bool) → (tty : Option ℕ) → Clones → Clones × Ret
unfolding scull_c_lookfor_device update_clone
scull_c_open p truncate alloc none cs = (cs, err inval)
scull_c_open p truncate alloc (some key) cs = elim (scull_c_lookfor_device p alloc key cs) [
  | none ↦ (cs, err nomem)
  | some cs' ↦ (update_clone key (open_dev p truncate) cs', ok 0)
]
