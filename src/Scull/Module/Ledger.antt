-- ===== src/Scull/Module/Ledger.antt =====
-- What the loops over character devices and the reservations do to the books.
use linux_kernel_module_chea.Base.{
  ℕ, zero, suc, ◌+◌, ◌-◌, ◌≤◌, ◌<◌, ◌≡◌, refl, Bool, false, ◌&&◌, ltb, leb, ◌==◌, if◌then◌else◌,
  arith, ◌∙◌, ap,
}
use linux_kernel_module_chea.Scull.Module.{
  Counter, once, Books, register_region, unregister_region, cdev_init, cdev_put, access, Answers,
  setup_cdevs, scull_access_setup, setup_access, del_cdevs,
}

-- The books show these numbers.
pub record Shows (l : Books) (r f : Counter) (n : ℕ) : Type 0 where
  pub regions : (x y : ℕ) → l.regions x y ≡ r x y
  pub refs : (x y : ℕ) → l.refs x y ≡ f x y
  pub misuses : l.misuses ≡ n

pub recount :
    {l : Books} {r f : Counter} {n : ℕ} (r' f' : Counter)
    → Shows l r f n
    → ((x y : ℕ) → r x y ≡ r' x y)
    → ((x y : ℕ) → f x y ≡ f' x y)
    → Shows l r' f' n
recount r' f' s h k = record {
  regions = λ x y. s.regions x y ∙ h x y;
  refs = λ x y. s.refs x y ∙ k x y;
  misuses = s.misuses;
}

pub register_region-Shows :
    {l : Books} {r f : Counter} {n : ℕ} (a b : ℕ)
    → Shows l r f n
    → Shows (register_region a b l) (λ x y. r x y + once a b x y) f n
register_region-Shows a b s = record {
  regions = λ x y. ap (λ (k : ℕ). k + once a b x y) (s.regions x y);
  refs = s.refs;
  misuses = s.misuses;
}

pub unregister_region-Shows :
    {l : Books} {r f : Counter} {n : ℕ} (a b : ℕ)
    → 0 < r a b
    → Shows l r f n
    → Shows (unregister_region a b l) (λ x y. r x y - once a b x y) f n
unregister_region-Shows a b there s = record {
  regions = λ x y. ap (λ (k : ℕ). k - once a b x y) (s.regions x y);
  refs = s.refs;
  misuses = ground (arith, s.regions a b, s.misuses);
}

-- Whether a device is one of the `n` of a family from number `i` on.
abbrev pub among : (family n i x y : ℕ) → Bool
among family n i x y = x == family && (leb i y && ltb y (i + n))

pub setup_cdevs-Shows :
    (family n i : ℕ) {l : Books} {r f : Counter} {k : ℕ}
    → Shows l r f k
    → Shows (setup_cdevs family n i l) r (λ x y. if among family n i x y then 1 else f x y) k
unfolding setup_cdevs
setup_cdevs-Shows family zero i s = recount _ _ s (λ x y. refl) (λ x y. ground arith)
setup_cdevs-Shows family (suc n) i {l} {r} {f} {k} s =
    let first : Shows (cdev_init family i l) r (λ x y. if x == family && y == i then 1 else f x y)
        k =
      record {
        regions = s.regions;
        refs = λ x y. ap (λ (t : ℕ). if x == family && y == i then 1 else t) (s.refs x y);
        misuses = s.misuses;
      } in
    recount _ _ (setup_cdevs-Shows family n (i + 1) first) (λ x y. refl) (λ x y. ground arith)

pub del_cdevs-Shows :
    (family n i : ℕ) {l : Books} {r f : Counter} {k : ℕ}
    → ((y : ℕ) → i ≤ y → y < i + n → 0 < f family y)
    → Shows l r f k
    → Shows (del_cdevs family n i l) r (λ x y. if among family n i x y then f x y - 1 else f x y) k
unfolding del_cdevs
del_cdevs-Shows family zero i there s = recount _ _ s (λ x y. refl) (λ x y. ground arith)
del_cdevs-Shows family (suc n) i {l} {r} {f} {k} there s =
    let first : Shows (cdev_put family i l) r (λ x y. f x y - once family i x y) k = record {
      regions = s.regions;
      refs = λ x y. ap (λ (t : ℕ). t - once family i x y) (s.refs x y);
      misuses = ground (arith, s.refs family i, s.misuses, there i (omega arith) (omega arith));
    } in
    recount _ _
      (del_cdevs-Shows family n (i + 1)
        (λ y a b. ground (arith, there y (omega arith) (omega arith))) first)
      (λ x y. refl) (λ x y. ground arith)

-- Giving back references that were never taken is misuse.
pub del_cdevs-stray :
    (family n i : ℕ) {l : Books} {r : Counter} {k : ℕ}
    → Shows l r (λ x y. 0) k
    → Shows (del_cdevs family n i l) r (λ x y. 0) (k + n)
unfolding del_cdevs
del_cdevs-stray family zero i {l} {r} {k} s = record {
  regions = s.regions;
  refs = s.refs;
  misuses = s.misuses ∙ omega arith;
}
del_cdevs-stray family (suc n) i {l} {r} {k} s =
    let first : Shows (cdev_put family i l) r (λ x y. 0) (k + 1) = record {
      regions = s.regions;
      refs = λ x y. ground (arith, s.refs x y);
      misuses = ground (arith, s.refs family i, s.misuses);
    } in
    let rest = del_cdevs-stray family n (i + 1) first in
    record { regions = rest.regions; refs = rest.refs; misuses = rest.misuses ∙ omega arith }

-- So is giving back a range that was never taken.
pub unregister_region-stray :
    {l : Books} {r f : Counter} {n : ℕ} (a b : ℕ)
    → r a b ≡ 0
    → Shows l r f n
    → Shows (unregister_region a b l) (λ x y. r x y - once a b x y) f (n + 1)
unregister_region-stray a b none_there s = record {
  regions = λ x y. ap (λ (k : ℕ). k - once a b x y) (s.regions x y);
  refs = s.refs;
  misuses = ground (arith, s.regions a b, s.misuses);
}

-- Where no `cdev_add` fails, the access devices are set up as the others.
pub setup_access-setup_cdevs :
    (o : Answers) (n i : ℕ) (l : Books)
    → ((j : ℕ) → o.a_fails j ≡ false)
    → setup_access o n i l ≡ setup_cdevs access n i l
unfolding setup_access setup_cdevs scull_access_setup
setup_access-setup_cdevs o zero i l h = refl
setup_access-setup_cdevs o (suc n) i l h =
    rw (h i) (setup_access-setup_cdevs o n (i + 1) (cdev_init access i l) h)
