-- ===== src/Sync/Steps.antt =====
-- Every step of a thread keeps the invariant.
use linux_kernel_module_chea.Base.{
  ℕ, ◌≡◌, ◌≤◌, refl, zero, suc, Option-cases, inl, inr, Bool, true, false, not, ◌&&◌, Option, none,
  some, List, [], ◌∷◌, ltb, get_elem?, arith,
}
use linux_kernel_module_chea.Sync.{
  SyncMode, sync_none, sync_spinlock, sync_mutex, sync_atomic, Pc, waiting, at_head, bumping,
  loading, storing, unlocking, leaving, finished, Worker, System, put, next, bump_counter, unlocked,
  worker_fn, step, run,
}
use linux_kernel_module_chea.Sync.Init.{is_none, is_finished, kthread_stop, stop_started}
use linux_kernel_module_chea.Sync.Locked.{owns, HasDone, AtPc, Sound, Advance-Sound}
use linux_kernel_module_chea.Sync.Moves.{
  Holds, Holds-if, branch-Holds, try_lock-Holds, quiet, takes_lock, stores, unlocks, leaves, holder,
}

leaves-HasDone : (n i : ℕ) (stop : Bool) → i ≤ n → (ltb i n && not stop) ≡ false → HasDone n stop i
leaves-HasDone n i true le over = le
leaves-HasDone n i false le over = ground (arith, le, over)

stops-AtPc :
    (n c : ℕ) (stop mine : Bool) (i : ℕ) (pc : Pc)
    → AtPc n c stop mine i pc
    → AtPc n c true mine i pc
stops-AtPc n c stop mine i waiting h = h
stops-AtPc n c stop mine i at_head h = h
stops-AtPc n c stop mine i bumping h = h
stops-AtPc n c stop mine i loading h = h
stops-AtPc n c stop mine i (storing v) h = h
stops-AtPc n c stop mine i unlocking h = h
stops-AtPc n c true mine i leaving h = h
stops-AtPc n c false mine i leaving h = (h.0, omega (arith, h.1))
stops-AtPc n c true mine i finished h = h
stops-AtPc n c false mine i finished h = (h.0, omega (arith, h.1))

module _ (n : ℕ) where
  bump_counter-Sound :
      (m : SyncMode) (k : ℕ) (w : Worker) (s : System)
      → is_none m ≡ false
      → get_elem? s.workers k ≡ some w
      → Sound m n s
      → w.pc ≡ bumping
      → AtPc n s.counter_plain w.should_stop (owns k s.counter_lock) w.i bumping
      → Holds (Sound m n) (bump_counter m k w s)
  unfolding bump_counter
  bump_counter-Sound sync_none k w s locked at h e st = cc
  bump_counter-Sound sync_spinlock k w s locked at h e st =
      try_lock-Holds (Sound sync_spinlock n) s.counter_lock _
        (takes_lock sync_spinlock n k w s refl at h e st.1)
  bump_counter-Sound sync_mutex k w s locked at h e st =
      try_lock-Holds (Sound sync_mutex n) s.counter_lock _
        (takes_lock sync_mutex n k w s refl at h e st.1)
  bump_counter-Sound sync_atomic k w s locked at h e st =
      Advance-Sound sync_atomic n k w (next w) s _ at h (record {
        workers = refl;
        stands = (st.0, omega (arith, st.1));
        others = λ j u d x. x;
        grows = rw e (omega arith);
        counted = rw e (omega (arith, h.counted));
        left = rw e refl;
        small = h.small;
        completed = h.completed;
        free = h.free;
        held = h.held;
      })

  unlocked-Sound :
      (m : SyncMode) (k : ℕ) (w : Worker) (s : System)
      → is_none m ≡ false
      → get_elem? s.workers k ≡ some w
      → Sound m n s
      → w.pc ≡ unlocking
      → AtPc n s.counter_plain w.should_stop (owns k s.counter_lock) w.i unlocking
      → Sound m n (record (put k (next w) s) { counter_lock = unlocked m s.counter_lock })
  unlocked-Sound sync_none k w s locked at h e st = cc
  unlocked-Sound sync_spinlock k w s locked at h e st = unlocks sync_spinlock n k w s at h e st
  unlocked-Sound sync_mutex k w s locked at h e st = unlocks sync_mutex n k w s at h e st
  unlocked-Sound sync_atomic k w s locked at h e st =
      absurd (let plain = holder sync_atomic n s k h st.0 in cc)

  worker_fn-Sound :
      (m : SyncMode) (k : ℕ) (w : Worker) (s : System) (pc : Pc)
      → is_none m ≡ false
      → get_elem? s.workers k ≡ some w
      → Sound m n s
      → w.pc ≡ pc
      → AtPc n s.counter_plain w.should_stop (owns k s.counter_lock) w.i pc
      → Holds (Sound m n) (worker_fn m n k w pc s)
  unfolding worker_fn
  worker_fn-Sound m k w s waiting locked at h e st =
      Holds-if (Sound m n) s.start_comp _
        (quiet m n k w (record w { pc = at_head }) s at h st (rw e refl) (rw e refl))
  worker_fn-Sound m k w s at_head locked at h e st =
      branch-Holds (Sound m n) (ltb w.i n && not w.should_stop) _ _
        (λ more.
          quiet m n k w (record w { pc = bumping }) s at h (st.0, ground (arith, more)) (rw e refl)
            (rw e refl))
        (λ over.
          quiet m n k w (record w { pc = leaving }) s at h
            (st.0, leaves-HasDone n w.i w.should_stop st.1 over) (rw e refl) (rw e refl))
  worker_fn-Sound m k w s bumping locked at h e st = bump_counter-Sound m k w s locked at h e st
  worker_fn-Sound m k w s loading locked at h e st =
      quiet m n k w (record w { pc = storing s.counter_plain }) s at h (st.0, (st.1, refl))
        (rw e refl) (rw e refl)
  worker_fn-Sound m k w s (storing v) locked at h e st = stores m n k v w s at h e st
  worker_fn-Sound m k w s unlocking locked at h e st = unlocked-Sound m k w s locked at h e st
  worker_fn-Sound m k w s leaving locked at h e st = leaves m n k w s at h e st
  worker_fn-Sound m k w s finished locked at h e st = tt

  pub step-Sound :
      (m : SyncMode) (k : ℕ) (s : System)
      → is_none m ≡ false
      → Sound m n s
      → Holds (Sound m n) (step m n k s)
  unfolding step
  step-Sound m k s locked h = go (get_elem? s.workers k) refl
    where
      go :
          (o : Option Worker)
          → get_elem? s.workers k ≡ o
          → Holds (Sound m n) (elim o [ none ↦ none | some w ↦ worker_fn m n k w w.pc s ])
      go none e = tt
      go (some w) e = let st = h.workers k w e in worker_fn-Sound m k w s w.pc locked e h refl st

  -- `kthread_stop` tells a thread to stop.
  stops-Sound :
      (m : SyncMode) (k : ℕ) (w : Worker) (s : System)
      → get_elem? s.workers k ≡ some w
      → Sound m n s
      → Sound m n (put k (record w { should_stop = true }) s)
  stops-Sound m k w s at h =
      quiet m n k w (record w { should_stop = true }) s at h
        (stops-AtPc n s.counter_plain w.should_stop (owns k s.counter_lock) w.i w.pc
          (h.workers k w at))
        refl refl

  runs :
      (m : SyncMode) (ids : List ℕ) (s : System)
      → is_none m ≡ false
      → Sound m n s
      → Sound m n (run m n ids s)
  unfolding run
  runs m [] s locked h = h
  runs m (id ∷ ids) s locked h =
      go (step m n id s) (step-Sound m id s locked h) (λ x. runs m ids x locked)
    where
      go :
          (o : Option System)
          → Holds (Sound m n) o
          → ((x : System) → Sound m n x → Sound m n (run m n ids x))
          → Sound m n (elim o [ none ↦ run m n ids s | some s' ↦ run m n ids s' ])
      go none k rest = rest s h
      go (some s') k rest = rest s' k

  kthread_stop-Sound :
      (m : SyncMode) (ids : List ℕ) (k : ℕ) (s : System)
      → is_none m ≡ false
      → Sound m n s
      → Holds (Sound m n) (kthread_stop m n ids k s)
  unfolding kthread_stop
  kthread_stop-Sound m ids k s locked h = elim (Option-cases (get_elem? s.workers k)) [
    | inl none_there ↦ rw (none_there, kthread_stop) h
    | inr (w, at) ↦
        let s' = run m n ids (put k (record w { should_stop = true }) s) in
        let there = runs m ids _ locked (stops-Sound m k w s at h) in
        rw (at, kthread_stop)
          (elim (Option-cases (get_elem? s'.workers k)) [
            | inl gone ↦ rw gone there
            | inr (w', at') ↦ rw at' (Holds-if (Sound m n) (is_finished w'.pc) s' there)
          ])
  ]

  stop_started-Sound :
      (m : SyncMode) (ids : ℕ → List ℕ) (k : ℕ) (s : System)
      → is_none m ≡ false
      → Sound m n s
      → Holds (Sound m n) (stop_started m n ids k s)
  unfolding stop_started
  stop_started-Sound m ids zero s locked h = h
  stop_started-Sound m ids (suc k) s locked h =
      go (kthread_stop m n (ids k) k s) (kthread_stop-Sound m (ids k) k s locked h)
        (λ x. stop_started-Sound m ids k x locked)
    where
      go :
          (o : Option System)
          → Holds (Sound m n) o
          → ((x : System) → Sound m n x → Holds (Sound m n) (stop_started m n ids k x))
          → Holds (Sound m n) (elim o [ none ↦ none | some s' ↦ stop_started m n ids k s' ])
      go none h rest = tt
      go (some s') h rest = rest s' h

  pub run-Sound :
      (m : SyncMode) (ids : List ℕ) (s : System)
      → is_none m ≡ false
      → Sound m n s
      → Sound m n (run m n ids s)
        × ((later : ℕ → List ℕ) (k : ℕ)
            → Holds (Sound m n) (stop_started m n later k (run m n ids s)))
  run-Sound m ids s locked h =
      let there = runs m ids s locked h in
      (there, λ later k. stop_started-Sound m later k (run m n ids s) locked there)
