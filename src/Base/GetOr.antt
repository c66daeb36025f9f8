-- ===== src/Base/GetOr.antt =====
-- Reads with a default, after a write and after a block copy.
use linux_kernel_module_chea.Base.Lists.{get_or, set, replicate, overwrite, length, get_elem?}
use linux_kernel_module_chea.Base.Tests.{leb, ltb, ◌==◌, if◌then◌else◌}
use Prim.Native.Nat.{ℕ, zero, suc, ◌+◌, ◌-◌, ◌≤◌, ◌<◌}
use mathlib.Core.Path.{◌≡◌, refl}
use mathlib.Core.Bool.{◌&&◌}
use mathlib.Core.List.{List, [], ◌∷◌}
use mathlib.Core.Option.{some}
use native.Mathlib.Omega.{arith}

module _ {A : Type 0} where
  pub get_or-set :
      (xs : List A) (i : ℕ) (v : A) (j : ℕ) (d : A)
      → i < length xs
      → get_or (set xs i v) j d ≡ (if j == i then v else get_or xs j d)
  get_or-set [] i v j d h = absurd (omega arith)
  get_or-set (x ∷ xs) zero v zero d h = refl
  get_or-set (x ∷ xs) zero v (suc j) d h = ground arith
  get_or-set (x ∷ xs) (suc i) v zero d h = ground arith
  get_or-set (x ∷ xs) (suc i) v (suc j) d h = ground (arith, get_or-set xs i v j d)

  pub get_or-replicate : (n : ℕ) (i : ℕ) (d : A) → get_or (replicate n d) i d ≡ d
  get_or-replicate zero i d = refl
  get_or-replicate (suc n) zero d = refl
  get_or-replicate (suc n) (suc i) d = get_or-replicate n i d

  pub get_or-get_elem? :
      (xs : List A) (i : ℕ) (d : A) → i < length xs → get_elem? xs i ≡ some (get_or xs i d)
  get_or-get_elem? [] i d h = absurd (omega arith)
  get_or-get_elem? (x ∷ xs) zero d h = refl
  get_or-get_elem? (x ∷ xs) (suc i) d h = get_or-get_elem? xs i d (ground arith)

  pub get_or-overwrite :
      (xs : List A) (i : ℕ) (ys : List A) (k : ℕ) (d : A)
      → i + length ys ≤ length xs
      → get_or (overwrite xs i ys) k d
        ≡ (if leb i k && ltb k (i + length ys) then get_or ys (k - i) d else get_or xs k d)
  get_or-overwrite [] i [] k d h = ground arith
  get_or-overwrite [] i (y ∷ ys) k d h = absurd (omega arith)
  get_or-overwrite (x ∷ xs) zero [] k d h = ground arith
  get_or-overwrite (x ∷ xs) zero (y ∷ ys) zero d h = ground arith
  get_or-overwrite (x ∷ xs) zero (y ∷ ys) (suc k) d h =
      ground (arith, get_or-overwrite xs zero ys k d)
  get_or-overwrite (x ∷ xs) (suc i) ys zero d h = ground arith
  get_or-overwrite (x ∷ xs) (suc i) ys (suc k) d h = ground (arith, get_or-overwrite xs i ys k d)
