-- ===== src/Sync/Locked.antt =====
-- The invariant of the threads under a lock or with the atomic increment.
use linux_kernel_module_chea.Base.{
  ℕ, ◌+◌, ◌-◌, ◌%◌, ◌^◌, ◌≤◌, ◌<◌, ◌≡◌, ◌≢◌, refl, ◌∙◌, sym, Bool, true, false, Option, none, some,
  List, ◌==◌, if◌then◌else◌, get_elem?, set, arith, get_elem?-set_ne, length, length-set, inl, inr,
  Bool-cases, some_inj,
}
use mathlib.Core.Path.{subst}
use linux_kernel_module_chea.Sync.{
  SyncMode, Pc, waiting, at_head, bumping, loading, storing, unlocking, leaving, finished, Worker,
  System,
}
use linux_kernel_module_chea.Sync.Init.{is_atomic, is_finished, actual}
use linux_kernel_module_chea.Sync.Totals.{total, total-set, get_elem?-set_there}

abbrev pub owns : ℕ → Option ℕ → Bool
owns id none = false
owns id (some owner) = id == owner

-- A thread that leaves has done all of its iterations, unless it has been told to stop.
abbrev pub HasDone : (n : ℕ) → (stop : Bool) → (i : ℕ) → Type 0
HasDone n true i = i ≤ n
HasDone n false i = i ≡ n

-- What holds of a thread of `n` iterations that has done `i`, by where it stands: `mine` says
-- whether it holds the lock, `c` is the counter, and `stop` says whether it has been told to stop.
abbrev pub AtPc : (n c : ℕ) → (stop mine : Bool) → (i : ℕ) → Pc → Type 0
AtPc n c stop mine i waiting = (mine ≡ false) × (i ≤ n)
AtPc n c stop mine i at_head = (mine ≡ false) × (i ≤ n)
AtPc n c stop mine i bumping = (mine ≡ false) × (i < n)
AtPc n c stop mine i loading = (mine ≡ true) × (i < n)
AtPc n c stop mine i (storing v) = (mine ≡ true) × ((i < n) × (v ≡ c))
AtPc n c stop mine i unlocking = (mine ≡ true) × (i < n)
AtPc n c stop mine i leaving = (mine ≡ false) × HasDone n stop i
AtPc n c stop mine i finished = (mine ≡ false) × HasDone n stop i

-- Without the lock, a thread does not care for the counter.
pub lock_free-AtPc :
    (n c c' : ℕ) (stop mine : Bool) (i : ℕ) (pc : Pc)
    → mine ≡ false
    → AtPc n c stop mine i pc
    → AtPc n c' stop false i pc
lock_free-AtPc n c c' stop mine i waiting e h = (refl, h.1)
lock_free-AtPc n c c' stop mine i at_head e h = (refl, h.1)
lock_free-AtPc n c c' stop mine i bumping e h = (refl, h.1)
lock_free-AtPc n c c' stop mine i loading e h = cc
lock_free-AtPc n c c' stop mine i (storing v) e h = cc
lock_free-AtPc n c c' stop mine i unlocking e h = cc
lock_free-AtPc n c c' stop mine i leaving e h = (refl, h.1)
lock_free-AtPc n c c' stop mine i finished e h = (refl, h.1)

-- The increments that a thread has stored.
abbrev pub added_at : ℕ → Pc → ℕ
added_at i waiting = i
added_at i at_head = i
added_at i bumping = i
added_at i loading = i
added_at i (storing v) = i
added_at i unlocking = i + 1
added_at i leaving = i
added_at i finished = i

abbrev pub added : Worker → ℕ
added w = added_at w.i w.pc

abbrev pub unfinished : Worker → ℕ
unfinished w = if is_finished w.pc then 0 else 1

abbrev pub Stands : ℕ → System → ℕ → Worker → Type 0
Stands n s k w = AtPc n s.counter_plain w.should_stop (owns k s.counter_lock) w.i w.pc

-- Threads that run under a lock or with the atomic increment.
pub record Sound (m : SyncMode) (n : ℕ) (s : System) : Type 0 where
  pub workers : (k : ℕ) (w : Worker) → get_elem? s.workers k ≡ some w → Stands n s k w
  pub counted : actual m s ≡ total added s.workers % 2 ^ 64
  pub left : s.threads_left ≡ total unfinished s.workers
  pub small : s.threads_left < 2 ^ 32
  pub completed : s.all_done ≡ (s.threads_left == 0)
  pub free : is_atomic m ≡ true → s.counter_lock ≡ none
  pub held : (o : ℕ) → s.counter_lock ≡ some o → o < length s.workers

-- One thread goes on and the counter grows by what that thread has added.
pub record Advance (m : SyncMode) (n k : ℕ) (w w' : Worker) (s s' : System) : Type 0 where
  pub workers : s'.workers ≡ set s.workers k w'
  pub stands : Stands n s' k w'
  pub others : (j : ℕ) (u : Worker) → j ≢ k → Stands n s j u → Stands n s' j u
  pub grows : added w ≤ added w'
  pub counted : actual m s' ≡ (actual m s + (added w' - added w)) % 2 ^ 64
  pub left : s'.threads_left + unfinished w ≡ s.threads_left + unfinished w'
  pub small : s'.threads_left < 2 ^ 32
  pub completed : s'.all_done ≡ (s'.threads_left == 0)
  pub free : is_atomic m ≡ true → s'.counter_lock ≡ none
  pub held : (o : ℕ) → s'.counter_lock ≡ some o → o < length s.workers

pub Advance-Sound :
    (m : SyncMode) (n k : ℕ) (w w' : Worker) (s s' : System)
    → get_elem? s.workers k ≡ some w
    → Sound m n s
    → Advance m n k w w' s s'
    → Sound m n s'
Advance-Sound m n k w w' s s' at h a = record {
  workers = λ j u e.
      let e' : get_elem? (set s.workers k w') j ≡ some u =
        subst (λ (ws : List Worker). get_elem? ws j ≡ some u) a.workers e in
      elim (Bool-cases (j == k)) [
        | inl same ↦
            let is : j ≡ k = ground (arith, same) in
            let u_is : w' ≡ u = some_inj (
              sym (get_elem?-set_there s.workers k w' at)
              ∙ subst (λ (x : ℕ). get_elem? (set s.workers k w') x ≡ some u) is e') in
            rw (is, sym u_is) a.stands
        | inr other ↦
            let differ : j ≢ k = λ is. ground (arith, other, is) in
            a.others j u differ
              (h.workers j u (sym (get_elem?-set_ne s.workers k j w' (λ is. differ (sym is))) ∙ e'))
      ];
  counted =
      rw a.workers
        (omega (arith, h.counted, a.counted, a.grows, total-set added s.workers k w' at));
  left = rw a.workers (omega (arith, h.left, a.left, total-set unfinished s.workers k w' at));
  small = a.small;
  completed = a.completed;
  free = a.free;
  held = λ o e. rw (a.workers, length-set s.workers k w') (a.held o e);
}
