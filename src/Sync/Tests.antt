-- ===== src/Sync/Tests.antt =====
-- Runs of two threads.
use text.Mathlib.Text.{◌==◌}
use linux_kernel_module_chea.Base.{
  ℕ, ◌≤◌, ◌≡◌, refl, true, none, some, inr, List, [], ◌∷◌, ◌++◌, arith,
}
use linux_kernel_module_chea.Kernel.{ok}
use linux_kernel_module_chea.Sync.{
  sync_none, sync_mutex, parse_mode, System, prepared, complete_all, run,
}
use linux_kernel_module_chea.Sync.Init.{
  skewed, counter_reached, Answers, Config, collect, sync_demo_init,
}
use linux_kernel_module_chea.Sync.Rank.{moves}
use linux_kernel_module_chea.Sync.Outcome.{sync_demo_init_exact}
use linux_kernel_module_chea.Sync.Progress.{moves_bound, sync_demo_init_returns}

abbrev config : Config
config = record { sync = some "mutex"; threads = 2; iterations = 1 }

-- Thread 1 waits for the lock that thread 0 holds.
abbrev schedule : List ℕ
schedule = 0 ∷ 0 ∷ 0 ∷ 1 ∷ 1 ∷ 1 ∷ 0 ∷ 0 ∷ 0 ∷ 1 ∷ 1 ∷ 1 ∷ 1 ∷ 1 ∷ 1 ∷ 0 ∷ 0 ∷ []

abbrev answers : Answers
answers = record {
  kcalloc = true;
  kthread_run = λ i. none;
  schedule = schedule;
  stop_schedule = λ i. [];
}

abbrev start : System
start = complete_all (prepared 2 2)

parsed : parse_mode (λ s t. s == t) (some "mutex") ≡ inr sync_mutex
unfolding parse_mode
parsed = refl

abbrev alternating : List ℕ
alternating = 0 ∷ 1 ∷ 0 ∷ 1 ∷ 0 ∷ 1 ∷ 0 ∷ 1 ∷ 0 ∷ 1 ∷ 0 ∷ 1 ∷ 0 ∷ 1 ∷ 0 ∷ 1 ∷ []

-- Without a lock, one of two increments is lost where both threads load before either stores.
lost :
    collect sync_none 2 1 (record answers { schedule = alternating }) (2, none)
    ≡ some (ok 0, some (skewed 1 2 1), run sync_none 1 alternating start)
unfolding collect
lost = refl

ends :
    sync_demo_init (λ s t. s == t) config answers
    ≡ some (ok 0, some (counter_reached 2), run sync_mutex 1 schedule start)
unfolding sync_demo_init
ends = refl

sync_demo_init_exact_example : (ok 0 ≡ ok 0) × (some (counter_reached 2) ≡ some (counter_reached 2))
sync_demo_init_exact_example =
    sync_demo_init_exact (λ s t. s == t) config answers sync_mutex
      (ok 0, some (counter_reached 2), run sync_mutex 1 schedule start) parsed refl (omega arith)
      refl (λ i. refl) ends

sync_demo_init_returns_example :
    (ids : List ℕ) × ((s : System) × (sync_demo_init
          (λ s t. s == t)
          config
          (record answers { schedule = (1 ∷ 0 ∷ []) ++ ids })
        ≡ some (ok 0, some (counter_reached 2), s)))
sync_demo_init_returns_example =
    sync_demo_init_returns (λ s t. s == t) config (record answers { schedule = 1 ∷ 0 ∷ [] })
      sync_mutex parsed refl (omega arith) refl (λ i. refl)

moves_bound_example : moves sync_none 1 schedule start ≤ 16
moves_bound_example = moves_bound sync_none 1 2 schedule
