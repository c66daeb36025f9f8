-- ===== src/Scull/Access/Exclusion.antt =====
-- The single-open device under any interleaving of openings and releases.
use linux_kernel_module_chea.Base.{
  ℕ, ◌+◌, ◌%◌, ◌^◌, ◌≡◌, ◌≤◌, ◌<◌, true, some, none, Option, arith, Bool-cases, inl, inr, ◌-◌, ◌==◌,
  ◌↔◌,
}
use mathlib.Core.Path.{subst}
use linux_kernel_module_chea.Kernel.{Ret}
use linux_kernel_module_chea.Scull.Params.{Params}
use linux_kernel_module_chea.Scull.Device.Defs.{Dev}
use linux_kernel_module_chea.Scull.Access.{
  Single, SingleStep, tests, backs_out, releases, single_step, atomic_dec_and_test,
}

-- The device as the module is loaded.
abbrev pub start : Dev → Single
start d = record { scull_s_available = 1; files = 0; backing_out = 0; scull_s_device = d }

-- The states that steps lead to from the start, while the files that are open or being opened are
-- at most `limit`, the number that the kernel allows.
pub data Reached (limit : ℕ) : Single → Type 0 where
  starts : (d : Dev) → Reached limit (start d)
  steps :
      (p : Params) (c : SingleStep) {s s' : Single} {r : Option Ret}
      → Reached limit s
      → single_step p c s ≡ some (s', r)
      → s'.files + s'.backing_out ≤ limit
      → Reached limit s'

-- The counter is 1 less the callers that have taken it down and not up again.
pub record IsSingle (s : Single) : Type 0 where
  pub word : s.scull_s_available < 2 ^ 32
  pub balance : (s.scull_s_available + s.files + s.backing_out) % 2 ^ 32 ≡ 1
  pub one : s.files ≤ 1

-- A property of the state that a step leads to, where there is one.
abbrev After : (Single → Type 0) → Option (Single × Option Ret) → Type 0
After Q none = Unit
After Q (some x) = Q x.0

single_step-After :
    (p : Params) (c : SingleStep) (s : Single)
    → s.files + s.backing_out + 1 < 2 ^ 32
    → IsSingle s
    → After IsSingle (single_step p c s)
unfolding single_step
single_step-After p (tests truncate) s small is =
    elim (Bool-cases ((s.scull_s_available + 2 ^ 32 - 1) % 2 ^ 32 == 0)) [
      | inl e ↦
          let one : s.scull_s_available ≡ 1 = ground (arith, is.word) in
          rw e (record {
            word = omega arith;
            balance = omega (arith, is.balance, one);
            one = omega (arith, is.balance, one);
          })
      | inr e ↦ rw e (record {
        word = omega arith;
        balance = omega (arith, is.balance, is.word);
        one = is.one;
      })
    ]
single_step-After p backs_out s small is = elim (Bool-cases (s.backing_out == 0)) [
  | inl e ↦ rw e tt
  | inr e ↦
      let some_one : 0 < s.backing_out = ground arith in
      rw e
        (record { word = omega arith; balance = omega (arith, is.balance, is.word); one = is.one })
]
single_step-After p releases s small is = elim (Bool-cases (s.files == 0)) [
  | inl e ↦ rw e tt
  | inr e ↦
      let some_one : 0 < s.files = ground arith in
      rw e (record {
        word = omega arith;
        balance = omega (arith, is.balance, is.word);
        one = omega (arith, is.one);
      })
]

Reached-limit : {limit : ℕ} {s : Single} → Reached limit s → s.files + s.backing_out ≤ limit
Reached-limit (starts d) = omega arith
Reached-limit (steps p c h e le) = le

Reached-IsSingle : {limit : ℕ} {s : Single} → limit + 1 < 2 ^ 32 → Reached limit s → IsSingle s
Reached-IsSingle small (starts d) = record {
  word = omega arith;
  balance = omega arith;
  one = omega arith;
}
Reached-IsSingle small (steps p c {s} h e le) =
    subst (After IsSingle) e
      (single_step-After p c s (omega (arith, Reached-limit h)) (Reached-IsSingle small h))

-- However openings and releases interleave, at most one file has the device open, and the test of
-- an opening succeeds exactly if no file has it open and no other opening is about to undo a failed
-- test. So it is if the number of files that the kernel allows fits the counter.
pub single_step_exclusive :
    (limit : ℕ) (s : Single)
    → limit + 1 < 2 ^ 32
    → Reached limit s
    → (s.files ≤ 1)
      × (((atomic_dec_and_test s.scull_s_available).1 ≡ true) ↔ (s.files + s.backing_out ≡ 0))
single_step_exclusive limit s small h =
    let is = Reached-IsSingle small h in
    let room = Reached-limit h in
    (is.one, ((λ e. ground (arith, is.word, is.balance)), λ e. ground (arith, is.word, is.balance)))
