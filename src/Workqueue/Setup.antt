-- ===== src/Workqueue/Setup.antt =====
-- What the loops of `myinit` have set up.
use linux_kernel_module_chea.Base.{
  ℕ, zero, suc, ◌+◌, ◌*◌, ◌/◌, ◌%◌, ◌≤◌, ◌<◌, ◌≡◌, refl, ◌∙◌, sym, Bool, true, false, Option, none,
  some, List, ◌==◌, ltb, set, length, get_elem?, length-set, get_elem?-set_if, arith, Bool-cases,
  inl, inr, div_unique, mod_unique,
}
use mathlib.Core.Path.{subst}
use linux_kernel_module_chea.Workqueue.{
  Work, add_works, Built, all_queues, err_create, out_of_bounds, make_queues,
}

-- The work at place `k`.
abbrev pub planned : (nworks k : ℕ) → Work
planned nworks k = record {
  work = some (k / nworks);
  queue_id = k / nworks + 1;
  item_id = k % nworks + 1;
}

-- The first `n` places are set up.
abbrev pub Planned : (nworks n : ℕ) → List Work → Type 0
Planned nworks n works = (k : ℕ) → k < n → get_elem? works k ≡ some (planned nworks k)

Planned-set :
    (nworks i j idx : ℕ) (works : List Work)
    → idx < length works
    → idx ≡ i * nworks + j
    → j < nworks
    → Planned nworks idx works
    → Planned nworks
        (idx + 1)
        (set works idx (record { work = some i; queue_id = i + 1; item_id = j + 1 }))
Planned-set nworks i j idx works inside is small h k lt =
    let q : idx / nworks ≡ i = rw is (div_unique i nworks j small) in
    let r : idx % nworks ≡ j = rw is (mod_unique i nworks j small) in
    elim (Bool-cases (idx == k)) [
      | inl here ↦
          let e : idx ≡ k = ground (arith, here) in
          get_elem?-set_if works idx k _ inside ∙ rw (here, sym e, q, r) refl
      | inr other ↦
          get_elem?-set_if works idx k _ inside ∙ rw other (h k (ground (arith, other, lt)))
    ]

-- How the loop over the works of one queue ends.
pub record Added (nworks idx' len : ℕ) (o : Option (List Work × ℕ)) : Type 0 where
  pub works : List Work
  pub is : o ≡ some (works, idx')
  pub size : length works ≡ len
  pub done : Planned nworks idx' works

pub add_works-Added :
    (nworks i n j idx : ℕ) (works : List Work)
    → idx ≡ i * nworks + j
    → j + n ≡ nworks
    → idx + n ≤ length works
    → Planned nworks idx works
    → Added nworks (idx + n) (length works) (add_works i n j idx works)
unfolding add_works
add_works-Added nworks i zero j idx works at all fits h =
    let e : idx + 0 ≡ idx = omega arith in
    rw e (record { works = works; is = refl; size = refl; done = h })
add_works-Added nworks i (suc n) j idx works at all fits h =
    let mw : Work = record { work = some i; queue_id = i + 1; item_id = j + 1 } in
    let rest =
      add_works-Added nworks i n (j + 1) (idx + 1) (set works idx mw) (omega (arith, at))
        (omega (arith, all)) (omega (arith, fits, length-set works idx mw))
        (Planned-set nworks i j idx works (omega (arith, fits)) at (omega (arith, all)) h) in
    let inside : ltb idx (length works) ≡ true = ground (arith, fits) in
    let e : idx + suc n ≡ idx + 1 + n = omega arith in
    rw (e, inside)
      (record {
        works = rest.works;
        is = rest.is;
        size = rest.size ∙ length-set works idx mw;
        done = rest.done;
      })

-- The first `i` of `n` queues live, and no other.
abbrev pub Live : (n i : ℕ) → List Bool → Type 0
Live n i queues = (length queues ≡ n) × ((q : ℕ) → q < n → get_elem? queues q ≡ some (ltb q i))

Live-set :
    (n i : ℕ) (queues : List Bool) → i < n → Live n i queues → Live n (i + 1) (set queues i true)
Live-set n i queues lt h = (
  length-set queues i true ∙ h.0,
  λ q less. get_elem?-set_if queues i q true (omega (arith, h.0, lt)) ∙ elim (Bool-cases (i == q)) [
    | inl here ↦ let e : ltb q (i + 1) ≡ true = ground (arith, here) in rw (here, e) refl
    | inr other ↦
        let e : ltb q (i + 1) ≡ ltb q i = ground (arith, other) in rw (other, e) (h.1 q less)
  ],
)

-- How the loop over the queues ends: in full, or at the first queue that is refused.
abbrev pub Ends : (alloc : ℕ → Bool) (n nworks : ℕ) → Built → Type 0
Ends alloc n nworks (all_queues queues works) = Live n n queues × Planned nworks (n * nworks) works
Ends alloc n nworks (err_create i queues works) = Live n i queues × ((i < n) × (alloc i ≡ false))
Ends alloc n nworks out_of_bounds = ⊥

pub make_queues-Ends :
    (alloc : ℕ → Bool) (all nworks n i idx : ℕ) (queues : List Bool) (works : List Work)
    → i + n ≡ all
    → idx ≡ i * nworks
    → idx + n * nworks ≤ length works
    → Live all i queues
    → Planned nworks idx works
    → Ends alloc all nworks (make_queues alloc nworks n i idx queues works)
unfolding make_queues
make_queues-Ends alloc all nworks zero i idx queues works is at fits live h =
    let e : i ≡ all = omega (arith, is) in
    let e' : all * nworks ≡ idx = rw (sym e) (sym at) in
    (subst (λ (x : ℕ). Live all x queues) e live, rw e' h)
make_queues-Ends alloc all nworks (suc n) i idx queues works is at fits live h =
    elim (Bool-cases (alloc i)) [
      | inr refused ↦ rw refused (live, (omega (arith, is), refused))
      | inl got ↦
          let a =
            add_works-Added nworks i nworks 0 idx works (omega (arith, at)) (omega arith)
              (grind (arith, fits)) h in
          rw (got, a.is)
            (make_queues-Ends alloc all nworks n (i + 1) (idx + nworks) (set queues i true) a.works
              (omega (arith, is)) (grind (arith, at)) (grind (arith, fits, a.size))
              (Live-set all i queues (omega (arith, is)) live) a.done)
    ]

-- A write beyond the array is found.
pub add_works_beyond :
    (i n j idx : ℕ) (works : List Work)
    → length works < idx + n
    → idx ≤ length works
    → add_works i n j idx works ≡ none
unfolding add_works
add_works_beyond i zero j idx works over le = absurd (omega (arith, over, le))
add_works_beyond i (suc n) j idx works over le = elim (Bool-cases (ltb idx (length works))) [
  | inr out ↦ rw out refl
  | inl inside ↦
      let mw : Work = record { work = some i; queue_id = i + 1; item_id = j + 1 } in
      let e = length-set works idx mw in
      rw (inside, add_works)
        (add_works_beyond i n (j + 1) (idx + 1) (set works idx mw) (omega (arith, over, e))
          (ground (arith, inside, e)))
]
