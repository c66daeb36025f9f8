-- ===== src/Sync/Totals.antt =====
-- Sums over lists, where one entry changes.
use linux_kernel_module_chea.Base.{
  ℕ, zero, suc, ◌+◌, ◌*◌, ◌≤◌, ◌<◌, ◌≡◌, refl, some, List, [], ◌∷◌, replicate, get_elem?, set,
  length, arith, Bool-cases, ◌==◌, inl, inr,
}

module _ {ℓ} {A : Type ℓ} (f : A → ℕ) where
  unfoldable pub total : List A → ℕ
  total [] = 0
  total (x ∷ xs) = f x + total xs

  pub total-set :
      (xs : List A) (i : ℕ) {a : A} (b : A)
      → get_elem? xs i ≡ some a
      → total (set xs i b) + f a ≡ total xs + f b
  unfolding total
  total-set [] i b h = cc
  total-set (x ∷ xs) zero {a} b h = ground (arith, h)
  total-set (x ∷ xs) (suc i) b h = omega (arith, total-set xs i b h)

  pub total-replicate : (n : ℕ) (a : A) → total (replicate n a) ≡ n * f a
  unfolding total
  total-replicate zero a = omega arith
  total-replicate (suc n) a = grind (arith, total-replicate n a)

  pub total_at : (xs : List A) (i : ℕ) {a : A} → get_elem? xs i ≡ some a → f a ≤ total xs
  unfolding total
  total_at [] i h = cc
  total_at (x ∷ xs) zero {a} h = ground (arith, h)
  total_at (x ∷ xs) (suc i) h = omega (arith, total_at xs i h)

  -- A sum is zero if no entry counts.
  pub total_none :
      (xs : List A) → ((i : ℕ) (a : A) → get_elem? xs i ≡ some a → f a ≡ 0) → total xs ≡ 0
  unfolding total
  total_none [] h = refl
  total_none (x ∷ xs) h = omega (arith, h 0 x refl, total_none xs (λ i. h (suc i)))

  -- If the sum is not zero, an entry counts.
  pub total_positive :
      (xs : List A) → 0 < total xs → (i : ℕ) × (a : A) × (get_elem? xs i ≡ some a) × (0 < f a)
  unfolding total
  total_positive [] h = absurd (omega arith)
  total_positive (x ∷ xs) h = elim (Bool-cases (f x == 0)) [
    | inl here ↦ let (i, a, e, l) = total_positive xs (ground (arith, here)) in (suc i, a, e, l)
    | inr more ↦ (0, x, refl, ground (arith, more))
  ]

  -- If the sum is zero, no entry counts.
  pub total_zero : (xs : List A) (i : ℕ) {a : A} → total xs ≡ 0 → get_elem? xs i ≡ some a → f a ≡ 0
  unfolding total
  total_zero [] i z h = cc
  total_zero (x ∷ xs) zero {a} z h = ground (arith, h, z)
  total_zero (x ∷ xs) (suc i) z h = total_zero xs i (omega arith) h

  -- A sum of equal entries is a product.
  pub total_const :
      (xs : List A) (k : ℕ)
      → ((i : ℕ) (a : A) → get_elem? xs i ≡ some a → f a ≡ k)
      → total xs ≡ length xs * k
  unfolding total
  total_const [] k h = omega arith
  total_const (x ∷ xs) k h = grind (arith, h 0 x refl, total_const xs k (λ i. h (suc i)))

-- Where there is an entry, `set` replaces it.
pub get_elem?-set_there {ℓ} :
    {A : Type ℓ} (xs : List A) (i : ℕ) {a : A} (b : A)
    → get_elem? xs i ≡ some a
    → get_elem? (set xs i b) i ≡ some b
get_elem?-set_there [] i b h = cc
get_elem?-set_there (x ∷ xs) zero b h = refl
get_elem?-set_there (x ∷ xs) (suc i) b h = get_elem?-set_there xs i b h
