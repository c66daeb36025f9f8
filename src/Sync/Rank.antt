-- ===== src/Sync/Rank.antt =====
-- How many steps the threads have left.
use linux_kernel_module_chea.Base.{
  ℕ, suc, ◌+◌, ◌-◌, ◌*◌, ◌<◌, ◌≡◌, refl, not, ◌&&◌, Option, none, some, List, [], ◌∷◌, ltb,
  get_elem?, set, arith, length, length-set, ◌≢◌, ◌∙◌, sym, ◌==◌, Bool-cases, inl, inr, some_inj,
  get_elem?-set_ne, false,
}
use linux_kernel_module_chea.Sync.{
  SyncMode, sync_none, sync_spinlock, sync_mutex, sync_atomic, Pc, waiting, at_head, bumping,
  loading, storing, unlocking, leaving, finished, Worker, System, next, bump_counter, worker_fn,
  step,
}
use mathlib.Core.Path.{subst}
use linux_kernel_module_chea.Sync.Totals.{total, total-set, get_elem?-set_there}
use linux_kernel_module_chea.Sync.Moves.{Holds, Holds-if, branch-Holds, try_lock-Holds}

-- The most steps that a thread has left.
abbrev pub rank_at : (n i : ℕ) → Pc → ℕ
rank_at n i waiting = 5 * (n - i) + 3
rank_at n i at_head = 5 * (n - i) + 2
rank_at n i bumping = 5 * (n - (i + 1)) + 6
rank_at n i loading = 5 * (n - (i + 1)) + 5
rank_at n i (storing v) = 5 * (n - (i + 1)) + 4
rank_at n i unlocking = 5 * (n - (i + 1)) + 3
rank_at n i leaving = 1
rank_at n i finished = 0

abbrev pub rank : ℕ → Worker → ℕ
rank n w = rank_at n w.i w.pc

-- No thread has been told to stop.
abbrev pub Unstopped : System → Type 0
Unstopped s = (k : ℕ) (w : Worker) → get_elem? s.workers k ≡ some w → w.should_stop ≡ false

-- A step that uses up rank, and keeps the threads and `start_comp`, and stops none.
pub record Spends (n : ℕ) (s s' : System) : Type 0 where
  pub spent : total (rank n) s'.workers < total (rank n) s.workers
  pub crew : length s'.workers ≡ length s.workers
  pub started : s'.start_comp ≡ s.start_comp
  pub unstopped : Unstopped s → Unstopped s'

spends :
    (n k : ℕ) (w w' : Worker) (s s' : System)
    → get_elem? s.workers k ≡ some w
    → s'.workers ≡ set s.workers k w'
    → s'.start_comp ≡ s.start_comp
    → w'.should_stop ≡ w.should_stop
    → rank n w' < rank n w
    → Spends n s s'
spends n k w w' s s' at e f g h = record {
  spent = rw e (omega (arith, total-set (rank n) s.workers k w' at));
  crew = rw e (length-set s.workers k w');
  started = f;
  unstopped = λ before j u at'.
      let there = subst (λ (ws : List Worker). get_elem? ws j ≡ some u) e at' in
      elim (Bool-cases (j == k)) [
        | inl same ↦
            let is : j ≡ k = ground (arith, same) in
            let u_is : w' ≡ u = some_inj (
              sym (get_elem?-set_there s.workers k w' at)
              ∙ subst (λ (x : ℕ). get_elem? (set s.workers k w') x ≡ some u) is there) in
            rw⁻¹ u_is (g ∙ before k w at)
        | inr other ↦
            let differ : k ≢ j = λ is. ground (arith, other, is) in
            before j u (sym (get_elem?-set_ne s.workers k j w' differ) ∙ there)
      ];
}

bump_counter-Spends :
    (m : SyncMode) (n k : ℕ) (w : Worker) (s : System)
    → get_elem? s.workers k ≡ some w
    → w.pc ≡ bumping
    → Holds (Spends n s) (bump_counter m k w s)
unfolding bump_counter
bump_counter-Spends sync_atomic n k w s at e =
    spends n k w (next w) s _ at refl refl refl (rw e (omega arith))
bump_counter-Spends sync_none n k w s at e =
    spends n k w (record w { pc = loading }) s _ at refl refl refl (rw e (omega arith))
bump_counter-Spends sync_spinlock n k w s at e =
    try_lock-Holds (Spends n s) s.counter_lock _
      (λ free. spends n k w (record w { pc = loading }) s _ at refl refl refl (rw e (omega arith)))
bump_counter-Spends sync_mutex n k w s at e =
    try_lock-Holds (Spends n s) s.counter_lock _
      (λ free. spends n k w (record w { pc = loading }) s _ at refl refl refl (rw e (omega arith)))

worker_fn-Spends :
    (m : SyncMode) (n k : ℕ) (w : Worker) (s : System) (pc : Pc)
    → get_elem? s.workers k ≡ some w
    → w.pc ≡ pc
    → Holds (Spends n s) (worker_fn m n k w pc s)
unfolding worker_fn
worker_fn-Spends m n k w s waiting at e =
    Holds-if (Spends n s) s.start_comp _
      (spends n k w (record w { pc = at_head }) s _ at refl refl refl (rw e (omega arith)))
worker_fn-Spends m n k w s at_head at e =
    branch-Holds (Spends n s) (ltb w.i n && not w.should_stop) _ _
      (λ more.
        spends n k w (record w { pc = bumping }) s _ at refl refl refl
          (rw e (ground (arith, more))))
      (λ over. spends n k w (record w { pc = leaving }) s _ at refl refl refl (rw e (omega arith)))
worker_fn-Spends m n k w s bumping at e = bump_counter-Spends m n k w s at e
worker_fn-Spends m n k w s loading at e =
    spends n k w (record w { pc = storing s.counter_plain }) s _ at refl refl refl
      (rw e (omega arith))
worker_fn-Spends m n k w s (storing v) at e =
    spends n k w (record w { pc = unlocking }) s _ at refl refl refl (rw e (omega arith))
worker_fn-Spends m n k w s unlocking at e =
    spends n k w (next w) s _ at refl refl refl (rw e (omega arith))
worker_fn-Spends m n k w s leaving at e =
    spends n k w (record w { pc = finished }) s _ at refl refl refl (rw e (omega arith))
worker_fn-Spends m n k w s finished at e = tt

pub step-Spends : (m : SyncMode) (n k : ℕ) (s : System) → Holds (Spends n s) (step m n k s)
unfolding step
step-Spends m n k s = go (get_elem? s.workers k) refl
  where
    go :
        (o : Option Worker)
        → get_elem? s.workers k ≡ o
        → Holds (Spends n s) (elim o [ none ↦ none | some w ↦ worker_fn m n k w w.pc s ])
    go none e = tt
    go (some w) e = worker_fn-Spends m n k w s w.pc e refl

-- How many entries of a schedule find their thread able to go on.
unfoldable pub moves : SyncMode → (iterations : ℕ) → List ℕ → System → ℕ
unfolding step
moves m n [] s = 0
moves m n (id ∷ ids) s = elim (step m n id s) [
  | none ↦ moves m n ids s
  | some s' ↦ suc (moves m n ids s')
]
