-- ===== src/Scull/Access/Tests.antt =====
-- Runs of the devices that control who may open them.
use linux_kernel_module_chea.Base.{
  ◌+◌, ◌≡◌, ◌≤◌, ◌↔◌, refl, true, false, some, none, ◌⊎◌, ◌==◌, if◌then◌else◌, ◌-◌, ◌^◌, [], ◌∷◌,
  arith,
}
use linux_kernel_module_chea.Kernel.{ok, err, inval, nomem}
use linux_kernel_module_chea.Scull.Access.Cloning.{clone_for, scull_c_open-find_clone}
use linux_kernel_module_chea.Scull.Params.{Params}
use linux_kernel_module_chea.Scull.Access.{
  Single, Task, Owned, woken, tests, single_step, atomic_dec_and_test, scull_w_open, scull_c_open,
  find_clone, open_dev, zeroed,
}
use linux_kernel_module_chea.Scull.Access.Exclusion.{
  Reached, starts, steps, start, single_step_exclusive,
}
use linux_kernel_module_chea.Scull.Access.Ownership.{
  opens, closes, Shared, IsShared, run, run-IsShared, OpeningOutcome, scull_w_open-OpeningOutcome,
}

abbrev params : Params
params = record { scull_quantum = 4000; scull_qset = 1000; scull_p_buffer = 4000 }

-- One file has the device open, and a second opening has failed its test.
abbrev contended : Single
contended = record {
  scull_s_available = 2 ^ 32 - 1;
  files = 1;
  backing_out = 1;
  scull_s_device = zeroed;
}

abbrev taken : Single
taken = record { scull_s_available = 0; files = 1; backing_out = 0; scull_s_device = zeroed }

first_step : single_step params (tests false) (start zeroed) ≡ some (taken, some (ok 0))
unfolding single_step
first_step = refl

second_step : single_step params (tests false) taken ≡ some (contended, none)
unfolding single_step
second_step = refl

contended-Reached : Reached 5 contended
contended-Reached =
    steps params (tests false) (steps params (tests false) (starts zeroed) first_step (omega arith))
      second_step (omega arith)

single_step_exclusive_example :
    (contended.files ≤ 1)
    × (((atomic_dec_and_test contended.scull_s_available).1 ≡ true)
        ↔ (contended.files + contended.backing_out ≡ 0))
single_step_exclusive_example = single_step_exclusive 5 contended (omega arith) contended-Reached

abbrev alice : Task
alice = record { uid = 1; euid = 1; dac_override = false }

abbrev bob : Task
bob = record { uid = 2; euid = 2; dac_override = false }

abbrev nobody : Shared
nobody = record { device = record { count = 0; owner = 0; dev = zeroed }; openers = [] }

nobody-IsShared : IsShared nobody
nobody-IsShared = record { counted = refl; shared = tt }

run-IsShared_example :
    IsShared (run nobody (opens params false alice ∷ opens params true bob ∷ closes 0 ∷ []))
run-IsShared_example =
    run-IsShared nobody (opens params false alice ∷ opens params true bob ∷ closes 0 ∷ [])
      (omega arith) nobody-IsShared

abbrev by_alice : Owned
by_alice = record { count = 1; owner = 1; dev = zeroed }

scull_w_open-OpeningOutcome_example :
    OpeningOutcome params true false bob by_alice
      (woken nobody.device ∷ [])
      (scull_w_open params true false bob by_alice (woken nobody.device ∷ []))
scull_w_open-OpeningOutcome_example =
    scull_w_open-OpeningOutcome params true false bob by_alice (woken nobody.device ∷ [])

scull_c_open-find_clone_example :
    (scull_c_open params true true none [] ≡ ([], err inval))
    × (((find_clone 5 [] ≡ none)
          × (true ≡ false)
          × (scull_c_open params true true (some 5) [] ≡ ([], err nomem)))
        ⊎ (((scull_c_open params true true (some 5) []).1 ≡ ok 0)
            × (find_clone 7 (scull_c_open params true true (some 5) []).0 ≡ (
                if 7 == 5
                then some (open_dev params true (clone_for params (find_clone 5 [])))
                else find_clone 7 []))))
scull_c_open-find_clone_example = scull_c_open-find_clone params true true 5 [] 7
