-- ===== src/Sync/Outcome.antt =====
-- What the threads have counted when they are done.
use Prim.Native.String.{String}
use mathlib.Core.Path.{subst}
use linux_kernel_module_chea.Base.{
  ℕ, zero, suc, ◌+◌, ◌*◌, ◌%◌, ◌^◌, ◌<◌, ◌≡◌, ◌≢◌, refl, ◌∙◌, sym, Bool, true, false, Option, none,
  some, List, [], ◌∷◌, ◌==◌, replicate, get_elem?, arith, inl, inr, Bool-cases, length,
  length-replicate, some_inj, ap,
}
use linux_kernel_module_chea.Kernel.{Ret, ok, Errno}
use linux_kernel_module_chea.Sync.{
  SyncMode, parse_mode, Pc, waiting, at_head, bumping, loading, storing, unlocking, leaving,
  finished, Worker, System, new_worker, prepared, complete_all, step, run,
}
use linux_kernel_module_chea.Sync.Init.{
  is_none, is_atomic, is_finished, actual, expected, report, Report, counter_reached, Answers,
  Config, collect, at_least_one, start_workers, sync_demo_init,
}
use linux_kernel_module_chea.Sync.Totals.{total, total-replicate, total_const, total_zero}
use linux_kernel_module_chea.Sync.Locked.{owns, AtPc, added, unfinished, Sound}
use linux_kernel_module_chea.Sync.Moves.{Holds}
use linux_kernel_module_chea.Sync.Steps.{run-Sound}
use linux_kernel_module_chea.Sync.Rank.{Unstopped, Spends, step-Spends}

get_elem?-replicate_is {ℓ} :
    {A : Type ℓ} (n i : ℕ) (a : A) {b : A} → get_elem? (replicate n a) i ≡ some b → a ≡ b
get_elem?-replicate_is zero i a h = cc
get_elem?-replicate_is (suc n) zero a h = some_inj h
get_elem?-replicate_is (suc n) (suc i) a h = get_elem?-replicate_is n i a h

-- The threads when `start_comp` is complete.
pub complete_all-Sound :
    (m : SyncMode) (n threads : ℕ)
    → 0 < threads
    → threads < 2 ^ 32
    → Sound m n (complete_all (prepared threads threads))
complete_all-Sound m n threads some_there small = record {
  workers = λ k w e.
      let new = get_elem?-replicate_is threads k new_worker e in rw⁻¹ new (refl, omega arith);
  counted = elim (Bool-cases (is_atomic m)) [
    | inl atomic ↦ rw (atomic, total-replicate added threads new_worker) (omega arith)
    | inr plain ↦ rw (plain, total-replicate added threads new_worker) (omega arith)
  ];
  left = rw (total-replicate unfinished threads new_worker) (omega arith);
  small = omega arith;
  completed = ground arith;
  free = λ atomic. refl;
  held = λ o e. cc;
}

-- The threads stay the same ones.
pub record SameCrew (s s' : System) : Type 0 where
  pub crew : length s'.workers ≡ length s.workers
  pub started : s'.start_comp ≡ s.start_comp
  pub unstopped : Unstopped s → Unstopped s'

pub run-SameCrew : (m : SyncMode) (n : ℕ) (ids : List ℕ) (s : System) → SameCrew s (run m n ids s)
unfolding run
run-SameCrew m n [] s = record { crew = refl; started = refl; unstopped = λ u. u }
run-SameCrew m n (id ∷ ids) s = go (step m n id s) (step-Spends m n id s) (run-SameCrew m n ids)
  where
    go :
        (o : Option System)
        → Holds (Spends n s) o
        → ((x : System) → SameCrew x (run m n ids x))
        → SameCrew s (elim o [ none ↦ run m n ids s | some s' ↦ run m n ids s' ])
    go none k rest = rest s
    go (some s') k rest = record {
      crew = (rest s').crew ∙ k.crew;
      started = (rest s').started ∙ k.started;
      unstopped = λ u. (rest s').unstopped (k.unstopped u);
    }

all_added :
    (n : ℕ) (c : ℕ) (mine : Bool) (i : ℕ) (pc : Pc)
    → is_finished pc ≡ true
    → AtPc n c false mine i pc
    → added (record { i = i; pc = pc; should_stop = false }) ≡ n
all_added n c mine i finished f h = h.1
all_added n c mine i waiting f h = cc
all_added n c mine i at_head f h = cc
all_added n c mine i bumping f h = cc
all_added n c mine i loading f h = cc
all_added n c mine i (storing v) f h = cc
all_added n c mine i unlocking f h = cc
all_added n c mine i leaving f h = cc

-- When `all_done` is complete, every increment has been counted.
pub all_done_exact :
    (m : SyncMode) (n : ℕ) (s : System)
    → Sound m n s
    → Unstopped s
    → s.all_done ≡ true
    → actual m s ≡ length s.workers * n % 2 ^ 64
all_done_exact m n s h going_on done =
    let none_left : total unfinished s.workers ≡ 0 = ground (arith, h.completed, h.left, done) in
    let each : (i : ℕ) (w : Worker) → get_elem? s.workers i ≡ some w → added w ≡ n = λ i w e.
      all_added n s.counter_plain (owns i s.counter_lock) w.i w.pc
        (ground (arith, total_zero unfinished s.workers i none_left e))
        (subst (λ (b : Bool). AtPc n s.counter_plain b (owns i s.counter_lock) w.i w.pc)
          (going_on i w e) (h.workers i w e)) in
    h.counted ∙ ap (λ (t : ℕ). t % 2 ^ 64) (total_const added s.workers n each)

none_yet :
    (m : SyncMode) (threads n : ℕ) (o : Answers)
    → (run m n o.schedule (complete_all (prepared threads threads))).all_done ≡ false
    → collect m threads n o (threads, none) ≡ none
unfolding collect
none_yet m threads n o waits = rw waits refl

waiting_ends :
    (m : SyncMode) (threads n : ℕ) (o : Answers) (x : Ret × Option Report × System)
    → (run m n o.schedule (complete_all (prepared threads threads))).all_done ≡ false
    → collect m threads n o (threads, none) ≢ some x
waiting_ends m threads n o x waits e = let e' = sym (none_yet m threads n o waits) ∙ e in cc

report_exact :
    (m : SyncMode) (e a : ℕ) → is_none m ≡ false → a ≡ e → report m e a ≡ counter_reached e
unfolding report
report_exact m e a locked is =
    rw (locked, is) (let same : e == e ≡ true = ground arith in rw same refl)

-- From `start_comp` to `all_done`.
pub collect_exact :
    (m : SyncMode) (threads n : ℕ) (o : Answers)
    → is_none m ≡ false
    → 0 < threads
    → threads < 2 ^ 32
    → (run m n o.schedule (complete_all (prepared threads threads))).all_done ≡ true
    → collect m threads n o (threads, none)
      ≡ some (
        ok 0,
        some (counter_reached (expected threads n)),
        run m n o.schedule (complete_all (prepared threads threads)),
      )
unfolding collect
collect_exact m threads n o locked some_there small done =
    let start = complete_all-Sound m n threads some_there small in
    let sound = (run-Sound n m o.schedule _ locked start).0 in
    let size =
      (run-SameCrew m n o.schedule (complete_all (prepared threads threads))).crew
      ∙ length-replicate threads new_worker in
    let calm =
      (run-SameCrew m n o.schedule (complete_all (prepared threads threads))).unstopped
        (λ k w e. rw⁻¹ (get_elem?-replicate_is threads k new_worker e) refl) in
    let exact = all_done_exact m n _ sound calm done in
    rw
      (
        done,
        report_exact m (expected threads n) _ locked (exact ∙ ap (λ (t : ℕ). t * n % 2 ^ 64) size),
      )
      refl

start_workers_all :
    (kthread_run : ℕ → Option Errno) (n i k : ℕ)
    → ((j : ℕ) → kthread_run j ≡ none)
    → k ≡ i + n
    → start_workers kthread_run n i ≡ (k, none)
unfolding start_workers
start_workers_all kthread_run zero i k h e =
    let same : i ≡ k = omega (arith, e) in ap (λ (j : ℕ). (j, none)) same
start_workers_all kthread_run (suc n) i k h e =
    rw (h i, start_workers, start_workers_all kthread_run n (i + 1) k h (omega (arith, e))) refl

-- Once all threads have been started.
pub sync_demo_init-collect :
    (sysfs_streq : String → String → Bool) (c : Config) (o : Answers) (m : SyncMode)
    → parse_mode sysfs_streq c.sync ≡ inr m
    → o.kcalloc ≡ true
    → ((i : ℕ) → o.kthread_run i ≡ none)
    → sync_demo_init sysfs_streq c o
      ≡ collect m (at_least_one c.threads) c.iterations o (at_least_one c.threads, none)
unfolding sync_demo_init
sync_demo_init-collect sysfs_streq c o m parsed memory starts =
    rw
      (
        parsed,
        sync_demo_init,
        memory,
        start_workers_all o.kthread_run (at_least_one c.threads) 0 (at_least_one c.threads) starts
            (omega arith),
      )
      refl

-- Under a spin lock, a mutex or with the atomic increment, if there is memory and all threads can be
-- started, then `sync_demo_init` returns 0 when it returns, and reports that the counter has reached
-- the product of threads and iterations (modulo 2 ^ 64), whatever order the threads have run in.
pub sync_demo_init_exact :
    (sysfs_streq : String → String → Bool) (c : Config) (o : Answers) (m : SyncMode)
    (x : Ret × Option Report × System)
    → parse_mode sysfs_streq c.sync ≡ inr m
    → is_none m ≡ false
    → c.threads < 2 ^ 32
    → o.kcalloc ≡ true
    → ((i : ℕ) → o.kthread_run i ≡ none)
    → sync_demo_init sysfs_streq c o ≡ some x
    → (x.0 ≡ ok 0) × (x.1 ≡ some (counter_reached (expected (at_least_one c.threads) c.iterations)))
sync_demo_init_exact sysfs_streq c o m x parsed locked small memory starts ends =
    let e = sym (sync_demo_init-collect sysfs_streq c o m parsed memory starts) ∙ ends in
    elim (Bool-cases
      (run m c.iterations o.schedule
        (complete_all (prepared (at_least_one c.threads) (at_least_one c.threads)))).all_done) [
          | inl done ↦
              let e' = some_inj (
                sym (
                  collect_exact m (at_least_one c.threads) c.iterations o locked (ground arith)
                    (ground arith) done)
                ∙ e) in
              (
                sym (ap (λ (y : Ret × Option Report × System). y.0) e'),
                sym (ap (λ (y : Ret × Option Report × System). y.1) e'),
              )
          | inr waits ↦ absurd (waiting_ends m (at_least_one c.threads) c.iterations o x waits e)
        ]
