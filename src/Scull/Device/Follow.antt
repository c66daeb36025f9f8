-- ===== src/Scull/Device/Follow.antt =====
-- `scull_follow`: it only lengthens the list by empty sets, and reaches the set that is asked for.
use linux_kernel_module_chea.Base.{
  ℕ, zero, suc, ◌<◌, ◌≡◌, refl, true, false, none, List, [], ◌∷◌, arith, length, All, Bool-cases,
  inl, inr,
}
use linux_kernel_module_chea.Kernel.{Allocs, later}
use linux_kernel_module_chea.Scull.Device.Defs.{Qset, follow_next, scull_follow}
use linux_kernel_module_chea.Scull.Device.Io.{block_at}

pub follow_next-found :
    (n : ℕ) (rest : List Qset) (a : Allocs)
    → (follow_next n rest a).found ≡ true
    → n < suc (length (follow_next n rest a).sets)
unfolding follow_next
follow_next-found zero rest a h = omega arith
follow_next-found (suc n) [] a h = ground (arith, follow_next-found n [] (later a))
follow_next-found (suc n) (q ∷ qs) a h = ground (arith, follow_next-found n qs a h)

pub scull_follow-found :
    (sets : List Qset) (n : ℕ) (a : Allocs)
    → (scull_follow sets n a).found ≡ true
    → n < length (scull_follow sets n a).sets
unfolding scull_follow
scull_follow-found [] n a h = ground (arith, follow_next-found n [] (later a))
scull_follow-found (q ∷ qs) n a h = ground (arith, follow_next-found n qs a)

follow_next-lost :
    (n : ℕ) (rest : List Qset) (a : Allocs)
    → (follow_next n rest a).found ≡ false
    → length (follow_next n rest a).sets < n
unfolding follow_next
follow_next-lost zero rest a h = cc
follow_next-lost (suc n) [] a h = ground (arith, follow_next-lost n [] (later a))
follow_next-lost (suc n) (q ∷ qs) a h = ground (arith, follow_next-lost n qs a h)

-- A walk that fails ends before the set that is asked for.
pub scull_follow-lost :
    (sets : List Qset) (n : ℕ) (a : Allocs)
    → (scull_follow sets n a).found ≡ false
    → length (scull_follow sets n a).sets < suc n
unfolding scull_follow
scull_follow-lost [] n a h = ground (arith, follow_next-lost n [] (later a))
scull_follow-lost (q ∷ qs) n a h = ground (arith, follow_next-lost n qs a)

follow_next-block_at :
    (n : ℕ) (rest : List Qset) (a : Allocs) (i s : ℕ)
    → block_at (follow_next n rest a).sets i s ≡ block_at rest i s
unfolding follow_next block_at
follow_next-block_at zero rest a i s = refl
follow_next-block_at (suc n) [] a zero s = ground arith
follow_next-block_at (suc n) [] a (suc i) s =
    ground (arith, follow_next-block_at n [] (later a) i s)
follow_next-block_at (suc n) (q ∷ qs) a zero s = refl
follow_next-block_at (suc n) (q ∷ qs) a (suc i) s = follow_next-block_at n qs a i s

-- The blocks stay where they are, whether or not the walk gets through.
pub scull_follow-block_at :
    (sets : List Qset) (n : ℕ) (a : Allocs) (i s : ℕ)
    → block_at (scull_follow sets n a).sets i s ≡ block_at sets i s
unfolding scull_follow block_at
scull_follow-block_at [] n a zero s = ground arith
scull_follow-block_at [] n a (suc i) s = ground (arith, follow_next-block_at n [] (later a) i s)
scull_follow-block_at (q ∷ qs) n a zero s = refl
scull_follow-block_at (q ∷ qs) n a (suc i) s = follow_next-block_at n qs a i s

module _ {ℓ} (P : Qset → Type ℓ) (empty : P none) where
  follow_next-All :
      (n : ℕ) (rest : List Qset) (a : Allocs) → All P rest → All P (follow_next n rest a).sets
  unfolding follow_next
  follow_next-All zero rest a h = h
  follow_next-All (suc n) [] a h = elim (Bool-cases (a 0)) [
    | inl e ↦ rw e (empty, follow_next-All n [] (later a) tt)
    | inr e ↦ rw e tt
  ]
  follow_next-All (suc n) (q ∷ qs) a h = (h.0, follow_next-All n qs a h.1)

  pub scull_follow-All :
      (sets : List Qset) (n : ℕ) (a : Allocs) → All P sets → All P (scull_follow sets n a).sets
  unfolding scull_follow
  scull_follow-All [] n a h = elim (Bool-cases (a 0)) [
    | inl e ↦ rw e (empty, follow_next-All n [] (later a) tt)
    | inr e ↦ rw e tt
  ]
  scull_follow-All (q ∷ qs) n a h = (h.0, follow_next-All n qs a h.1)

-- Where every allocation succeeds, the walk gets through, and the others stay successful.
follow_next_total :
    (n : ℕ) (rest : List Qset) (a : Allocs)
    → ((k : ℕ) → a k ≡ true)
    → ((follow_next n rest a).found ≡ true) × ((k : ℕ) → (follow_next n rest a).left k ≡ true)
unfolding follow_next
follow_next_total zero rest a h = (refl, h)
follow_next_total (suc n) [] a h = rw (h 0) (follow_next_total n [] (later a) (λ k. h (suc k)))
follow_next_total (suc n) (q ∷ qs) a h = follow_next_total n qs a h

pub scull_follow_total :
    (sets : List Qset) (n : ℕ) (a : Allocs)
    → ((k : ℕ) → a k ≡ true)
    → ((scull_follow sets n a).found ≡ true) × ((k : ℕ) → (scull_follow sets n a).left k ≡ true)
unfolding scull_follow
scull_follow_total [] n a h = rw (h 0) (follow_next_total n [] (later a) (λ k. h (suc k)))
scull_follow_total (q ∷ qs) n a h = follow_next_total n qs a h
