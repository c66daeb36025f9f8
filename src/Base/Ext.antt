-- ===== src/Base/Ext.antt =====
-- Lists by their elements.
use linux_kernel_module_chea.Base.Lists.{length, get_elem?, get_or, take, overwrite, set}
use linux_kernel_module_chea.Base.Tests.{leb, ltb, if◌then◌else◌, some_inj, ◌==◌}
use Prim.Native.Nat.{ℕ, zero, suc, ◌+◌, ◌-◌, ◌≤◌, ◌<◌}
use mathlib.Core.Path.{◌≡◌, refl, ap, ap₂}
use mathlib.Core.Bool.{◌&&◌}
use mathlib.Core.List.{List, [], ◌∷◌, ◌++◌}
use mathlib.Core.Option.{none, some}
use native.Mathlib.Omega.{arith}

module _ {A : Type 0} where
  -- Two lists with the same element at each index are one.
  pub list_ext : (xs ys : List A) → ((i : ℕ) → get_elem? xs i ≡ get_elem? ys i) → xs ≡ ys
  list_ext [] [] h = refl
  list_ext [] (y ∷ ys) h = cc (h 0)
  list_ext (x ∷ xs) [] h = cc (h 0)
  list_ext (x ∷ xs) (y ∷ ys) h = ap₂ ◌∷◌ (some_inj (h 0)) (list_ext xs ys (λ i. h (suc i)))

  pub get_elem?-append :
      (xs ys : List A) (i : ℕ)
      → get_elem? (xs ++ ys) i
        ≡ (if ltb i (length xs) then get_elem? xs i else get_elem? ys (i - length xs))
  get_elem?-append [] ys i = ground arith
  get_elem?-append (x ∷ xs) ys zero = ground arith
  get_elem?-append (x ∷ xs) ys (suc i) = ground (arith, get_elem?-append xs ys i)

  pub take_whole : (n : ℕ) (xs : List A) → length xs ≤ n → take n xs ≡ xs
  take_whole zero [] h = refl
  take_whole (suc n) [] h = refl
  take_whole zero (x ∷ xs) h = absurd (omega (arith, h))
  take_whole (suc n) (x ∷ xs) h = ap (λ (ys : List A). x ∷ ys) (take_whole n xs (omega (arith, h)))

  pub get_elem?-take_if :
      (n : ℕ) (xs : List A) (i : ℕ)
      → get_elem? (take n xs) i ≡ (if ltb i n then get_elem? xs i else none)
  get_elem?-take_if zero xs i = ground arith
  get_elem?-take_if (suc n) [] i = ground arith
  get_elem?-take_if (suc n) (x ∷ xs) zero = ground arith
  get_elem?-take_if (suc n) (x ∷ xs) (suc i) = ground (arith, get_elem?-take_if n xs i)

  pub get_elem?-overwrite :
      (xs : List A) (i : ℕ) (ys : List A) (k : ℕ)
      → i + length ys ≤ length xs
      → get_elem? (overwrite xs i ys) k
        ≡ (if leb i k && ltb k (i + length ys) then get_elem? ys (k - i) else get_elem? xs k)
  get_elem?-overwrite [] i [] k h = ground arith
  get_elem?-overwrite [] i (y ∷ ys) k h = absurd (omega arith)
  get_elem?-overwrite (x ∷ xs) zero [] k h = ground arith
  get_elem?-overwrite (x ∷ xs) zero (y ∷ ys) zero h = ground arith
  get_elem?-overwrite (x ∷ xs) zero (y ∷ ys) (suc k) h =
      ground (arith, get_elem?-overwrite xs zero ys k)
  get_elem?-overwrite (x ∷ xs) (suc i) ys zero h = ground arith
  get_elem?-overwrite (x ∷ xs) (suc i) ys (suc k) h = ground (arith, get_elem?-overwrite xs i ys k)

  -- Two lists of one length with the same elements within it are one.
  pub list_ext_or :
      (xs ys : List A) (d : A)
      → length xs ≡ length ys
      → ((k : ℕ) → k < length xs → get_or xs k d ≡ get_or ys k d)
      → xs ≡ ys
  list_ext_or [] [] d e h = refl
  list_ext_or [] (y ∷ ys) d e h = absurd (omega arith)
  list_ext_or (x ∷ xs) [] d e h = absurd (omega arith)
  list_ext_or (x ∷ xs) (y ∷ ys) d e h =
      ap₂ ◌∷◌ (h 0 (omega arith))
        (list_ext_or xs ys d (omega arith) (λ k lt. h (suc k) (omega arith)))

-- What `get_elem?` shows after a `set` within bounds.
pub get_elem?-set_if {ℓ} :
    {A : Type ℓ} (xs : List A) (i j : ℕ) (v : A)
    → i < length xs
    → get_elem? (set xs i v) j ≡ (if i == j then some v else get_elem? xs j)
get_elem?-set_if [] i j v h = absurd (omega arith)
get_elem?-set_if (x ∷ xs) zero zero v h = refl
get_elem?-set_if (x ∷ xs) zero (suc j) v h = ground arith
get_elem?-set_if (x ∷ xs) (suc i) zero v h = ground arith
get_elem?-set_if (x ∷ xs) (suc i) (suc j) v h = ground (arith, get_elem?-set_if xs i j v)

pub within {ℓ} :
    {A : Type ℓ} (xs : List A) (i : ℕ) {a : A} → get_elem? xs i ≡ some a → i < length xs
within [] i h = cc
within (x ∷ xs) zero h = omega arith
within (x ∷ xs) (suc i) h = omega (arith, within xs i h)
