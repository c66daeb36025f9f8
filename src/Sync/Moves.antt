-- ===== src/Sync/Moves.antt =====
-- Each kind of step keeps the invariant.
use linux_kernel_module_chea.Base.{
  within, ℕ, ◌+◌, ◌-◌, ◌%◌, ◌^◌, ◌<◌, ◌≡◌, ◌≢◌, refl, Bool, true, false, ◌||◌, Option, none, some,
  ◌==◌, if◌then◌else◌, get_elem?, arith, inl, inr, Bool-cases, some_inj,
}
use linux_kernel_module_chea.Sync.{
  SyncMode, bumping, loading, storing, unlocking, leaving, finished, Worker, System, put, next,
}
use linux_kernel_module_chea.Sync.Init.{is_atomic}
use linux_kernel_module_chea.Sync.Totals.{total_at}
use linux_kernel_module_chea.Sync.Locked.{
  owns, AtPc, lock_free-AtPc, added, unfinished, Stands, Sound, Advance-Sound,
}

abbrev pub Holds {ℓ} : {A : Type ℓ} → (A → Type 0) → Option A → Type 0
Holds P none = Unit
Holds P (some a) = P a

-- `if` and `elim` with one result.
pub Holds-if {ℓ} :
    {A : Type ℓ} (P : A → Type 0) (b : Bool) (a : A) → P a → Holds P (if b then some a else none)
Holds-if P true a h = h
Holds-if P false a h = tt

pub branch-Holds {ℓ} :
    {A : Type ℓ} (P : A → Type 0) (b : Bool) (x y : A)
    → (b ≡ true → P x)
    → (b ≡ false → P y)
    → Holds P (if b then some x else some y)
branch-Holds P true x y h k = h refl
branch-Holds P false x y h k = k refl

pub try_lock-Holds {ℓ} :
    {A : Type ℓ} (P : A → Type 0) (o : Option ℕ) (a : A)
    → (o ≡ none → P a)
    → Holds P (elim o [ none ↦ some a | some owner ↦ none ])
try_lock-Holds P none a h = h refl
try_lock-Holds P (some x) a h = tt

module _ (m : SyncMode) (n : ℕ) where
  -- A thread that takes no step of the others' into account.
  pub quiet :
      (k : ℕ) (w w' : Worker) (s : System)
      → get_elem? s.workers k ≡ some w
      → Sound m n s
      → Stands n s k w'
      → added w' ≡ added w
      → unfinished w' ≡ unfinished w
      → Sound m n (put k w' s)
  quiet k w w' s at h st e f = Advance-Sound m n k w w' s (put k w' s) at h (record {
    workers = refl;
    stands = st;
    others = λ j u d x. x;
    grows = omega (arith, e);
    counted = omega (arith, h.counted, e);
    left = omega (arith, f);
    small = h.small;
    completed = h.completed;
    free = h.free;
    held = h.held;
  })

  -- Under a lock, no other thread holds it.
  alone :
      (c' : ℕ) (l' : Option ℕ) (k : ℕ) (s : System)
      → ((j : ℕ) → j ≢ k → owns j s.counter_lock ≡ false)
      → ((j : ℕ) → j ≢ k → owns j l' ≡ false)
      → (j : ℕ) (u : Worker) → j ≢ k
      → Stands n s j u
      → AtPc n c' u.should_stop (owns j l') u.i u.pc
  alone c' l' k s before after j u d h =
      rw (after j d) (lock_free-AtPc n s.counter_plain c' u.should_stop _ u.i u.pc (before j d) h)

  owner_alone : (l : Option ℕ) (k j : ℕ) → owns k l ≡ true → j ≢ k → owns j l ≡ false
  owner_alone none k j h d = refl
  owner_alone (some o) k j h d = ground arith

  pub holder :
      (s : System) (k : ℕ) → Sound m n s → owns k s.counter_lock ≡ true → is_atomic m ≡ false
  holder s k h mine = elim (Bool-cases (is_atomic m)) [
    | inl atomic ↦ let e = h.free atomic in cc
    | inr plain ↦ plain
  ]

  pub takes_lock :
      (k : ℕ) (w : Worker) (s : System)
      → is_atomic m ≡ false
      → get_elem? s.workers k ≡ some w
      → Sound m n s
      → w.pc ≡ bumping
      → w.i < n
      → s.counter_lock ≡ none
      → Sound m n (record (put k (record w { pc = loading }) s) { counter_lock = some k })
  takes_lock k w s plain at h e lt free =
      Advance-Sound m n k w (record w { pc = loading }) s _ at h
        (record {
          workers = refl;
          stands = (ground arith, lt);
          others =
              alone s.counter_plain (some k) k s (λ j d. rw free refl)
                (λ j d. owner_alone (some k) k j (ground arith) d);
          grows = rw e (omega arith);
          counted = rw e (omega (arith, h.counted));
          left = rw e refl;
          small = h.small;
          completed = h.completed;
          free = λ atomic. cc;
          held = λ o e. ground (arith, some_inj e, within s.workers k at);
        })

  pub stores :
      (k v : ℕ) (w : Worker) (s : System)
      → get_elem? s.workers k ≡ some w
      → Sound m n s
      → w.pc ≡ storing v
      → AtPc n s.counter_plain w.should_stop (owns k s.counter_lock) w.i (storing v)
      → Sound m n
          (record (put k (record w { pc = unlocking }) s) { counter_plain = (v + 1) % 2 ^ 64 })
  stores k v w s at h e st =
      Advance-Sound m n k w (record w { pc = unlocking }) s _ at h
        (record {
          workers = refl;
          stands = (st.0, st.1.0);
          others =
              alone ((v + 1) % 2 ^ 64) s.counter_lock k s
                (λ j d. owner_alone s.counter_lock k j st.0 d)
                (λ j d. owner_alone s.counter_lock k j st.0 d);
          grows = rw e (omega arith);
          counted = rw (e, holder s k h st.0) (omega (arith, st.1.1));
          left = rw e refl;
          small = h.small;
          completed = h.completed;
          free = h.free;
          held = h.held;
        })

  pub unlocks :
      (k : ℕ) (w : Worker) (s : System)
      → get_elem? s.workers k ≡ some w
      → Sound m n s
      → w.pc ≡ unlocking
      → AtPc n s.counter_plain w.should_stop (owns k s.counter_lock) w.i unlocking
      → Sound m n (record (put k (next w) s) { counter_lock = none })
  unlocks k w s at h e st = Advance-Sound m n k w (next w) s _ at h (record {
    workers = refl;
    stands = (refl, omega (arith, st.1));
    others =
        alone s.counter_plain none k s (λ j d. owner_alone s.counter_lock k j st.0 d) (λ j d. refl);
    grows = rw e (omega arith);
    counted = rw e (omega (arith, h.counted));
    left = rw e refl;
    small = h.small;
    completed = h.completed;
    free = λ atomic. refl;
    held = λ o e. cc;
  })

  pub leaves :
      (k : ℕ) (w : Worker) (s : System)
      → get_elem? s.workers k ≡ some w
      → Sound m n s
      → w.pc ≡ leaving
      → AtPc n s.counter_plain w.should_stop (owns k s.counter_lock) w.i leaving
      → (let left = (s.threads_left + (2 ^ 32 - 1)) % 2 ^ 32 in
          Sound m n (record (put k (record w { pc = finished }) s) {
            threads_left = left;
            all_done = left == 0 || s.all_done;
          }))
  leaves k w s at h e st =
      let one : 0 < s.threads_left =
        ground (arith, total_at unfinished s.workers k at, h.left, e) in
      let down : (s.threads_left + (2 ^ 32 - 1)) % 2 ^ 32 ≡ s.threads_left - 1 =
        omega (arith, one, h.small) in
      Advance-Sound m n k w (record w { pc = finished }) s _ at h
        (record {
          workers = refl;
          stands = st;
          others = λ j u d x. x;
          grows = rw e (omega arith);
          counted = rw e (omega (arith, h.counted));
          left = rw (e, down) (omega (arith, one));
          small = omega arith;
          completed = ground (arith, down, one, h.completed);
          free = h.free;
          held = h.held;
        })
