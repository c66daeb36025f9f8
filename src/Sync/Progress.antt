-- ===== src/Sync/Progress.antt =====
-- The threads always get done.
use Prim.Native.String.{String}
use linux_kernel_module_chea.Base.{
  ℕ, zero, suc, ◌+◌, ◌*◌, ◌^◌, ◌≤◌, ◌<◌, ◌≡◌, refl, ◌∙◌, Bool, true, false, not, ◌&&◌, Option, none,
  some, List, [], ◌∷◌, ◌++◌, ltb, get_elem?, arith, inl, inr, Bool-cases, Option-cases,
  get_elem?_within,
}
use mathlib.Core.Path.{subst}
use linux_kernel_module_chea.Kernel.{ok}
use linux_kernel_module_chea.Sync.{
  SyncMode, sync_none, sync_spinlock, sync_mutex, sync_atomic, parse_mode, Pc, waiting, at_head,
  bumping, loading, storing, unlocking, leaving, finished, Worker, System, new_worker, prepared,
  complete_all, bump_counter, worker_fn, step, run,
}
use linux_kernel_module_chea.Sync.Init.{
  is_none, is_finished, expected, counter_reached, Answers, Config, at_least_one, sync_demo_init,
}
use linux_kernel_module_chea.Sync.Totals.{total, total_positive, total-replicate}
use linux_kernel_module_chea.Sync.Locked.{owns, AtPc, unfinished, Sound}
use linux_kernel_module_chea.Sync.Moves.{Holds}
use linux_kernel_module_chea.Sync.Steps.{step-Sound, run-Sound}
use linux_kernel_module_chea.Sync.Rank.{rank, Spends, step-Spends, moves}
use linux_kernel_module_chea.Sync.Outcome.{
  complete_all-Sound, run-SameCrew, collect_exact, sync_demo_init-collect,
}

-- However the threads are scheduled, they take no more steps than they have left.
moves-rank :
    (m : SyncMode) (n : ℕ) (ids : List ℕ) (s : System)
    → moves m n ids s + total (rank n) (run m n ids s).workers ≤ total (rank n) s.workers
unfolding moves run
moves-rank m n [] s = omega arith
moves-rank m n (id ∷ ids) s = go (step m n id s) refl (step-Spends m n id s) (moves-rank m n ids)
  where
    go :
        (o : Option System)
        → step m n id s ≡ o
        → Holds (Spends n s) o
        → ((x : System)
            → moves m n ids x + total (rank n) (run m n ids x).workers ≤ total (rank n) x.workers)
        → moves m n (id ∷ ids) s + total (rank n) (run m n (id ∷ ids) s).workers
          ≤ total (rank n) s.workers
    go none e k rest = rw (e, moves, run) (rest s)
    go (some s') e k rest = rw (e, moves, run) (omega (arith, rest s', k.spent))

-- Whatever the mode is and however the threads are scheduled, all of them together take at most, for
-- each thread, five steps for every iteration and three more: no thread runs for ever.
pub moves_bound :
    (m : SyncMode) (n threads : ℕ) (ids : List ℕ)
    → moves m n ids (complete_all (prepared threads threads)) ≤ threads * (5 * n + 3)
moves_bound m n threads ids = grind (
  arith,
  moves-rank m n ids (complete_all (prepared threads threads)),
  total-replicate (rank n) threads new_worker,
)

abbrev CanGo : SyncMode → ℕ → System → ℕ → Type 0
CanGo m n s k = (s' : System) × (step m n k s ≡ some s')

bumps :
    (m : SyncMode) (k : ℕ) (w : Worker) (s : System)
    → s.counter_lock ≡ none
    → (s' : System) × (bump_counter m k w s ≡ some s')
unfolding bump_counter
bumps sync_none k w s e = (_, refl)
bumps sync_spinlock k w s e = rw (e, bump_counter) (_, refl)
bumps sync_mutex k w s e = rw (e, bump_counter) (_, refl)
bumps sync_atomic k w s e = (_, refl)

goes_on :
    (m : SyncMode) (n k : ℕ) (w : Worker) (s : System) (pc : Pc)
    → s.start_comp ≡ true
    → s.counter_lock ≡ none
    → is_finished pc ≡ false
    → (s' : System) × (worker_fn m n k w pc s ≡ some s')
unfolding worker_fn
goes_on m n k w s waiting on free h = rw on (_, refl)
goes_on m n k w s at_head on free h = elim (Bool-cases (ltb w.i n && not w.should_stop)) [
  | inl more ↦ rw more (_, refl)
  | inr over ↦ rw over (_, refl)
]
goes_on m n k w s bumping on free h = bumps m k w s free
goes_on m n k w s loading on free h = (_, refl)
goes_on m n k w s (storing v) on free h = (_, refl)
goes_on m n k w s unlocking on free h = (_, refl)
goes_on m n k w s leaving on free h = (_, refl)
goes_on m n k w s finished on free h = cc

-- The holder of the lock never waits.
owner_goes_on :
    (m : SyncMode) (n c k : ℕ) (w : Worker) (s : System) (pc : Pc)
    → AtPc n c w.should_stop true w.i pc
    → (s' : System) × (worker_fn m n k w pc s ≡ some s')
unfolding worker_fn
owner_goes_on m n c k w s waiting h = cc
owner_goes_on m n c k w s at_head h = cc
owner_goes_on m n c k w s bumping h = cc
owner_goes_on m n c k w s loading h = (_, refl)
owner_goes_on m n c k w s (storing v) h = (_, refl)
owner_goes_on m n c k w s unlocking h = (_, refl)
owner_goes_on m n c k w s leaving h = cc
owner_goes_on m n c k w s finished h = cc

step-worker_fn :
    (m : SyncMode) (n k : ℕ) (w : Worker) (s : System)
    → get_elem? s.workers k ≡ some w
    → step m n k s ≡ worker_fn m n k w w.pc s
unfolding step
step-worker_fn m n k w s e = rw (e, step) refl

can_go :
    (m : SyncMode) (n : ℕ) (s : System)
    → Sound m n s
    → s.start_comp ≡ true
    → s.all_done ≡ false
    → (k : ℕ) × CanGo m n s k
can_go m n s h on going = elim (Option-cases s.counter_lock) [
  | inl free ↦
      let (k, w, e, u) =
        total_positive unfinished s.workers (ground (arith, h.left, h.completed, going)) in
      let (s', g) = goes_on m n k w s w.pc on free (ground (arith, u)) in
      (k, (s', step-worker_fn m n k w s e ∙ g))
  | inr (o, lock) ↦
      let (w, e) = get_elem?_within s.workers o (h.held o lock) in
      let mine : owns o s.counter_lock ≡ true = rw lock (ground arith) in
      let at_pc = h.workers o w e in
      let (s', g) =
        owner_goes_on m n s.counter_plain o w s w.pc
          (subst (λ (b : Bool). AtPc n s.counter_plain w.should_stop b w.i w.pc) mine at_pc) in
      (o, (s', step-worker_fn m n o w s e ∙ g))
]

run-step :
    (m : SyncMode) (n k : ℕ) (ids : List ℕ) (s s' : System)
    → step m n k s ≡ some s'
    → run m n (k ∷ ids) s ≡ run m n ids s'
unfolding run
run-step m n k ids s s' g = rw (g, run) refl

run-append :
    (m : SyncMode) (n : ℕ) (xs ys : List ℕ) (s : System)
    → run m n (xs ++ ys) s ≡ run m n ys (run m n xs s)
unfolding run
run-append m n [] ys s = refl
run-append m n (x ∷ xs) ys s = go (step m n x s) refl (run-append m n xs ys)
  where
    go :
        (o : Option System)
        → step m n x s ≡ o
        → ((t : System) → run m n (xs ++ ys) t ≡ run m n ys (run m n xs t))
        → run m n (x ∷ (xs ++ ys)) s ≡ run m n ys (run m n (x ∷ xs) s)
    go none e rest = rw (e, run) (rest s)
    go (some s') e rest = rw (e, run) (rest s')

-- From any sound state, some schedule of steps gets all threads done.
get_done :
    (m : SyncMode) (n r : ℕ) (s : System)
    → is_none m ≡ false
    → total (rank n) s.workers ≤ r
    → Sound m n s
    → s.start_comp ≡ true
    → (ids : List ℕ) × ((run m n ids s).all_done ≡ true)
unfolding run
get_done m n zero s locked few h on = elim (Bool-cases s.all_done) [
  | inl done ↦ ([], done)
  | inr going ↦
      let (k, (s', g)) = can_go m n s h on going in
      let spends = subst (Holds (Spends n s)) g (step-Spends m n k s) in
      absurd (omega (arith, spends.spent))
]
get_done m n (suc r) s locked few h on = elim (Bool-cases s.all_done) [
  | inl done ↦ ([], done)
  | inr going ↦
      let (k, (s', g)) = can_go m n s h on going in
      let spends = subst (Holds (Spends n s)) g (step-Spends m n k s) in
      let sound = subst (Holds (Sound m n)) g (step-Sound n m k s locked h) in
      let (ids, done) =
        get_done m n r s' locked (omega (arith, spends.spent)) sound (spends.started ∙ on) in
      (k ∷ ids, rw (run-step m n k ids s s' g) done)
]

-- Under a spin lock, a mutex or with the atomic increment, `sync_demo_init` never gets stuck: if
-- there is memory and all threads can be started, then after any schedule there are steps that let
-- it return 0 and report that the counter has reached the product of threads and iterations.
pub sync_demo_init_returns :
    (sysfs_streq : String → String → Bool) (c : Config) (o : Answers) (m : SyncMode)
    → parse_mode sysfs_streq c.sync ≡ inr m
    → is_none m ≡ false
    → c.threads < 2 ^ 32
    → o.kcalloc ≡ true
    → ((i : ℕ) → o.kthread_run i ≡ none)
    → (ids : List ℕ) × ((s : System) × (sync_demo_init sysfs_streq c
            (record o { schedule = o.schedule ++ ids })
          ≡ some
              (ok 0, some (counter_reached (expected (at_least_one c.threads) c.iterations)), s)))
sync_demo_init_returns sysfs_streq c o m parsed locked small memory starts =
    let n = c.iterations in
    let t = at_least_one c.threads in
    let s0 = complete_all (prepared t t) in
    let start = complete_all-Sound m n t (ground arith) (ground arith) in
    let sound = (run-Sound n m o.schedule s0 locked start).0 in
    let (ids, done) =
      get_done m n (total (rank n) (run m n o.schedule s0).workers) (run m n o.schedule s0) locked
        (omega arith) sound (run-SameCrew m n o.schedule s0).started in
    let o' = record o { schedule = o.schedule ++ ids } in
    (
      ids,
      (
        run m n (o.schedule ++ ids) s0,
        sync_demo_init-collect sysfs_streq c o' m parsed memory starts
            ∙ collect_exact m t n o' locked (ground arith) (ground arith)
                (rw (run-append m n o.schedule ids s0) done),
      ),
    )
