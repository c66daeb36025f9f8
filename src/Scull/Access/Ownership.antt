-- ===== src/Scull/Access/Ownership.antt =====
-- The devices with an owner, under any sequence of openings and releases.
use linux_kernel_module_chea.Base.{
  ℕ, zero, suc, ◌+◌, ◌^◌, ◌≡◌, ◌≤◌, ◌<◌, ◌⊎◌, refl, true, false, Bool, List, [], ◌∷◌, arith,
  Bool-cases, ltb, inl, inr, ◌==◌, if◌then◌else◌, All, length, ◌≢◌,
}
use mathlib.Core.Path.{subst}
use linux_kernel_module_chea.Kernel.{Ret, ok, err, busy, again, restartsys}
use linux_kernel_module_chea.Scull.Params.{Params}
use linux_kernel_module_chea.Scull.Access.{
  Task, Owned, OwnerWake, signal, woken, Opening, asleep, fails, opened, grab, scull_u_open,
  scull_u_release, scull_w_open, scull_w_available,
}

-- A task may share the device with its owner.
abbrev pub MayShare : ℕ → Task → Type 0
MayShare owner t = (owner ≡ t.uid) ⊎ ((owner ≡ t.euid) ⊎ (t.dac_override ≡ true))

-- Openings and releases; a release is of the file that the task number `k` of the openers has.
pub data Event : Type 0 where
  opens : Params → (truncate : Bool) → Task → Event
  closes : (k : ℕ) → Event

-- The device, and the tasks that have it open.
pub record Shared : Type 0 where
  pub device : Owned
  pub openers : List Task

pub remove_at : List Task → ℕ → List Task
remove_at [] k = []
remove_at (t ∷ ts) zero = ts
remove_at (t ∷ ts) (suc k) = t ∷ remove_at ts k

after_open : Task → List Task → Owned × Ret → Shared
after_open t ts (o, ok n) = record { device = o; openers = t ∷ ts }
after_open t ts (o, r) = record { device = o; openers = ts }

-- The calls of sculluid; a release of no file does not happen.
pub happen : Shared → Event → Shared
unfolding after_open scull_u_open scull_u_release
happen s (opens p truncate t) = after_open t s.openers (scull_u_open p truncate t s.device)
happen s (closes k) =
    if ltb k (length s.openers)
    then record { device = (scull_u_release s.device).0; openers = remove_at s.openers k }
    else s

pub run : Shared → List Event → Shared
run s [] = s
run s (e ∷ es) = run (happen s e) es

-- The count is the number of openers, and each of them may share the device with its owner.
pub record IsShared (s : Shared) : Type 0 where
  pub counted : s.device.count ≡ length s.openers
  pub shared : All (MayShare s.device.owner) s.openers

All-remove_at : (Q : Task → Type 0) (ts : List Task) (k : ℕ) → All Q ts → All Q (remove_at ts k)
unfolding remove_at
All-remove_at Q [] k h = h
All-remove_at Q (t ∷ ts) zero h = h.1
All-remove_at Q (t ∷ ts) (suc k) h = (h.0, All-remove_at Q ts k h.1)

remove_at-length :
    (ts : List Task) (k : ℕ) → k < length ts → length (remove_at ts k) + 1 ≡ length ts
unfolding remove_at
remove_at-length [] k h = absurd (omega arith)
remove_at-length (t ∷ ts) zero h = omega arith
remove_at-length (t ∷ ts) (suc k) h = omega (arith, remove_at-length ts k (omega arith))

-- Whom `scull_u_open` lets in.
pub scull_u_open_cases :
    (p : Params) (truncate : Bool) (t : Task) (o : Owned)
    → ((scull_u_open p truncate t o ≡ (grab p truncate t o, ok 0))
        × ((o.count ≡ 0) ⊎ MayShare o.owner t))
      ⊎ ((scull_u_open p truncate t o ≡ (o, err busy)) × (o.count ≢ 0))
unfolding scull_u_open
scull_u_open_cases p truncate t o = elim (Bool-cases (o.count == 0)) [
  | inl free ↦ inl (rw free refl, inl (ground arith))
  | inr taken ↦ elim (Bool-cases (o.owner == t.uid)) [
    | inl user ↦ inl (rw (taken, user) refl, inr (inl (ground arith)))
    | inr other ↦ elim (Bool-cases (o.owner == t.euid)) [
      | inl su ↦ inl (rw (taken, other, su) refl, inr (inr (inl (ground arith))))
      | inr stranger ↦ elim (Bool-cases t.dac_override) [
        | inl root ↦ inl (rw (taken, other, stranger, root) refl, inr (inr (inr root)))
        | inr guest ↦ inr (rw (taken, other, stranger, guest) refl, λ e. absurd (ground arith))
      ]
    ]
  ]
]

none_open :
    (ts : List Task) (owner owner' : ℕ)
    → length ts ≡ 0
    → All (MayShare owner) ts
    → All (MayShare owner') ts
none_open [] owner owner' e h = h
none_open (t ∷ ts) owner owner' e h = absurd (omega arith)

grab-IsShared :
    (p : Params) (truncate : Bool) (t : Task) (s : Shared)
    → length s.openers + 1 < 2 ^ 32
    → IsShared s
    → (s.device.count ≡ 0) ⊎ MayShare s.device.owner t
    → IsShared (record { device = grab p truncate t s.device; openers = t ∷ s.openers })
grab-IsShared p truncate t s small is may =
    let o' = grab p truncate t s.device in
    elim (Bool-cases (s.device.count == 0)) [
      | inl free ↦
          let empty : length s.openers ≡ 0 = ground (arith, is.counted) in
          let owns : o'.owner ≡ t.uid = rw free refl in
          record {
            counted = omega (arith, is.counted);
            shared = (inl owns, none_open s.openers s.device.owner o'.owner empty is.shared);
          }
      | inr taken ↦
          let keeps : s.device.owner ≡ o'.owner = rw taken refl in
          record {
            counted = omega (arith, is.counted);
            shared = elim may [
              | inl e ↦ absurd (ground arith)
              | inr m ↦ subst (λ (w : ℕ). All (MayShare w) (t ∷ s.openers)) keeps (m, is.shared)
            ];
          }
    ]

happen-IsShared :
    (s : Shared) (e : Event) → length s.openers + 1 < 2 ^ 32 → IsShared s → IsShared (happen s e)
unfolding happen scull_u_release after_open
happen-IsShared s (opens p truncate t) small is = elim (scull_u_open_cases p truncate t s.device) [
  | inl (e, may) ↦ rw e (grab-IsShared p truncate t s small is may)
  | inr (e, taken) ↦ rw e (record { counted = is.counted; shared = is.shared })
]
happen-IsShared s (closes k) small is = elim (Bool-cases (ltb k (length s.openers))) [
  | inr none_there ↦ rw none_there is
  | inl there ↦
      let one_less = remove_at-length s.openers k (ground arith) in
      rw there (record {
        counted = omega (arith, is.counted, one_less);
        shared = All-remove_at (MayShare s.device.owner) s.openers k is.shared;
      })
]

happen-length : (s : Shared) (e : Event) → length (happen s e).openers ≤ length s.openers + 1
unfolding happen after_open
happen-length s (opens p truncate t) = elim (scull_u_open_cases p truncate t s.device) [
  | inl (e, may) ↦ rw e (omega arith)
  | inr (e, taken) ↦ rw e (omega arith)
]
happen-length s (closes k) = elim (Bool-cases (ltb k (length s.openers))) [
  | inr none_there ↦ rw none_there (omega arith)
  | inl there ↦
      let one_less = remove_at-length s.openers k (ground arith) in
      rw there (omega (arith, one_less))
]

-- Over any history of openings and releases of sculluid, shorter than the range of the counter,
-- from a state in which this holds: the counter is the number of files that have the device open,
-- and each of them was opened by the owner, by a task that runs as the owner, or by one that may
-- override permissions.
pub run-IsShared :
    (s : Shared) (es : List Event)
    → length s.openers + length es + 1 < 2 ^ 32
    → IsShared s
    → IsShared (run s es)
unfolding run
run-IsShared s [] small is = is
run-IsShared s (e ∷ es) small is =
    run-IsShared (happen s e) es (omega (arith, happen-length s e))
      (happen-IsShared s e (omega arith) is)

-- `o` is the device at the call, or as a wait found it.
abbrev pub OwnerFound : Owned → List OwnerWake → Owned → Type 0
OwnerFound now [] o = o ≡ now
OwnerFound now (signal ∷ ws) o = o ≡ now
OwnerFound now (woken o' ∷ ws) o = (o ≡ now) ⊎ OwnerFound o' ws o

-- The outcomes of an opening of scullwuid.
pub data OpeningOutcome (p : Params) (truncate nonblock : Bool) (t : Task) (now : Owned)
    (ws : List OwnerWake) : Opening → Type 0 where
  waits : nonblock ≡ false → OpeningOutcome p truncate nonblock t now ws asleep
  refused : nonblock ≡ true → OpeningOutcome p truncate nonblock t now ws (fails (err again))
  interrupted :
      nonblock ≡ false → OpeningOutcome p truncate nonblock t now ws (fails (err restartsys))
  gets :
      (o : Owned) {o' : Owned}
      → OwnerFound now ws o
      → scull_u_open p truncate t o ≡ (o', ok 0)
      → OpeningOutcome p truncate nonblock t now ws (opened o')

now_found : (now : Owned) (ws : List OwnerWake) → OwnerFound now ws now
now_found now [] = refl
now_found now (signal ∷ ws) = refl
now_found now (woken o ∷ ws) = inl refl

scull_w_available-scull_u_open :
    (p : Params) (truncate : Bool) (t : Task) (o : Owned)
    → scull_w_available t o ≡ true
    → scull_u_open p truncate t o ≡ (grab p truncate t o, ok 0)
unfolding scull_w_available scull_u_open
scull_w_available-scull_u_open p truncate t o h = ground arith

later_outcome :
    (p : Params) (truncate nonblock : Bool) (t : Task) (now o : Owned) (ws : List OwnerWake)
    (x : Opening)
    → OpeningOutcome p truncate nonblock t o ws x
    → OpeningOutcome p truncate nonblock t now (woken o ∷ ws) x
later_outcome p truncate nonblock t now o ws x (waits b) = waits b
later_outcome p truncate nonblock t now o ws x (refused b) = refused b
later_outcome p truncate nonblock t now o ws x (interrupted b) = interrupted b
later_outcome p truncate nonblock t now o ws x (gets o'' f e) = gets o'' (inr f) e

-- One round of the loop, where `rest` is what follows a wait.
round_outcome :
    (p : Params) (truncate nonblock : Bool) (t : Task) (now : Owned) (ws : List OwnerWake)
    (rest : Opening)
    → (nonblock ≡ false → OpeningOutcome p truncate nonblock t now ws rest)
    → OpeningOutcome p truncate nonblock t now ws (
        if scull_w_available t now
        then opened (grab p truncate t now)
        else (if nonblock then fails (err again) else rest))
round_outcome p truncate true t now ws rest h = elim (Bool-cases (scull_w_available t now)) [
  | inl free ↦
      rw free (gets now (now_found now ws) (scull_w_available-scull_u_open p truncate t now free))
  | inr taken ↦ rw taken (refused refl)
]
round_outcome p truncate false t now ws rest h = elim (Bool-cases (scull_w_available t now)) [
  | inl free ↦
      rw free (gets now (now_found now ws) (scull_w_available-scull_u_open p truncate t now free))
  | inr taken ↦ rw taken (h refl)
]

-- An opening of scullwuid never fails because the device is taken, unless it may not wait; it may
-- be ended by a signal while it waits. It opens the device as it found it, at the call or after a
-- wait, exactly as sculluid would be opened.
pub scull_w_open-OpeningOutcome :
    (p : Params) (truncate nonblock : Bool) (t : Task) (now : Owned) (ws : List OwnerWake)
    → OpeningOutcome p truncate nonblock t now ws (scull_w_open p truncate nonblock t now ws)
unfolding scull_w_open
scull_w_open-OpeningOutcome p truncate nonblock t now [] =
    round_outcome p truncate nonblock t now [] asleep waits
scull_w_open-OpeningOutcome p truncate nonblock t now (signal ∷ ws) =
    round_outcome p truncate nonblock t now (signal ∷ ws) (fails (err restartsys)) interrupted
scull_w_open-OpeningOutcome p truncate nonblock t now (woken o ∷ ws) =
    round_outcome p truncate nonblock t now (woken o ∷ ws) _ (λ e.
      later_outcome p truncate nonblock t now o ws _
        (scull_w_open-OpeningOutcome p truncate nonblock t o ws))
