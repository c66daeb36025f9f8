-- ===== src/Scull/Module/Loading.antt =====
-- What the books show once the module is loaded.
use linux_kernel_module_chea.Base.{
  ℕ, ◌+◌, ◌≡◌, refl, true, false, ◌&&◌, if◌then◌else◌, arith, ◌∙◌, sym, ap, Bool-cases, some, none,
  inl, inr, replicate,
}
use mathlib.Core.Path.{subst}
use linux_kernel_module_chea.Kernel.{ok}
use linux_kernel_module_chea.Scull.Params.{Params}
use linux_kernel_module_chea.Scull.Module.{
  Counter, once, Books, bare, pipes, access, register_region, Globals, Config, Answers,
  scull_n_adevs, setup_cdevs, scull_p_init, scull_access_init, init_devices, new_dev,
}
use linux_kernel_module_chea.Scull.Module.Ledger.{
  Shows, recount, register_region-Shows, unregister_region-Shows, among, setup_cdevs-Shows,
  setup_access-setup_cdevs,
}
use linux_kernel_module_chea.Scull.Module.Balance.{is_some, Used, loaded_refs, loaded_regions}

-- What `scull_p_init` does: it sets all pipes up, or none.
record PipesUp (c : Config) (o : Answers) (m : Globals) (r f : Counter) (k : ℕ)
    (x : Globals × Books × ℕ) : Type 0 where
  there : is_some x.0.scull_p_devices ≡ (o.p_region && o.p_devices)
  major : x.0.scull_major ≡ m.scull_major
  devices : x.0.scull_devices ≡ m.scull_devices
  books :
      Shows x.1
        (λ i j.
          r i j
          + (if o.p_region && o.p_devices then once x.0.scull_p_devno c.scull_p_nr_devs i j else 0))
        (λ i j.
          if o.p_region && o.p_devices && among pipes c.scull_p_nr_devs 0 i j then 1 else f i j)
        k

scull_p_init-PipesUp :
    (c : Config) (o : Answers) (dev : ℕ) (m : Globals) (l : Books) (r f : Counter) (k : ℕ)
    → m.scull_p_devices ≡ none
    → Shows l r f k
    → PipesUp c o m r f k (scull_p_init c o dev m l)
unfolding scull_p_init
scull_p_init-PipesUp c o dev m l r f k nothing s = elim (Bool-cases o.p_region) [
  | inr refused ↦
      rw (refused, scull_p_init)
        (record {
          there = rw nothing refl;
          major = refl;
          devices = refl;
          books = recount _ _ s (λ i j. omega arith) (λ i j. refl);
        })
  | inl region ↦
      let s1 = register_region-Shows dev c.scull_p_nr_devs s in
      elim (Bool-cases o.p_devices) [
        | inr lacking ↦
            rw (region, lacking, scull_p_init)
              (record {
                there = refl;
                major = refl;
                devices = refl;
                books =
                    recount _ _ (unregister_region-Shows dev c.scull_p_nr_devs (ground arith) s1)
                      (λ i j. omega arith) (λ i j. refl);
              })
        | inl up ↦
            rw (region, up, scull_p_init)
              (record {
                there = refl;
                major = refl;
                devices = refl;
                books =
                    recount _ _ (setup_cdevs-Shows pipes c.scull_p_nr_devs 0 s1) (λ i j. refl)
                      (λ i j. refl);
              })
      ]
]

-- What `scull_access_init` does where its calls succeed.
record AccessUp (m : Globals) (r f : Counter) (k : ℕ) (x : Globals × Books) : Type 0 where
  same : Used m (record x.0 { scull_a_firstdev = m.scull_a_firstdev })
  books :
      Shows x.1
        (λ i j. r i j + once x.0.scull_a_firstdev scull_n_adevs i j)
        (λ i j. if among access scull_n_adevs 0 i j then 1 else f i j)
        k

scull_access_init-AccessUp :
    (p : Params) (o : Answers) (dev : ℕ) (m : Globals) (l : Books) (r f : Counter) (k : ℕ)
    → o.a_region ≡ true
    → ((i : ℕ) → o.a_fails i ≡ false)
    → Shows l r f k
    → AccessUp m r f k (scull_access_init p o dev m l)
unfolding scull_access_init
scull_access_init-AccessUp p o dev m l r f k region adds s =
    let s1 = register_region-Shows dev scull_n_adevs s in
    rw (region, scull_access_init)
      (record {
        same = record {
          major = refl;
          devices = refl;
          p_devno = refl;
          p_devices = refl;
          a_firstdev = refl;
        };
        books =
            subst
              (λ (b : Books).
                Shows b (λ i j. r i j + once dev scull_n_adevs i j)
                  (λ i j. if among access scull_n_adevs 0 i j then 1 else f i j) k)
              (sym (
                setup_access-setup_cdevs o scull_n_adevs 0 (register_region dev scull_n_adevs l)
                  adds))
              (setup_cdevs-Shows access scull_n_adevs 0 s1);
      })

-- A loaded module, before any use.
pub record Loaded (mkdev : ℕ → ℕ → ℕ) (c : Config) (r : Counter) (k : ℕ) (m : Globals) (l : Books)
    : Type 0 where
  pub devices : is_some m.scull_devices ≡ true
  pub books :
      Shows l
        (loaded_regions r
          (mkdev m.scull_major c.scull_minor)
          c.scull_nr_devs
          (is_some m.scull_p_devices)
          m.scull_p_devno
          c.scull_p_nr_devs
          m.scull_a_firstdev)
        (loaded_refs c (is_some m.scull_p_devices))
        k

finish_loading :
    (mkdev : ℕ → ℕ → ℕ) (c : Config) (o : Answers) (m : Globals) (r : Counter) (k : ℕ)
    (x : Globals × Books × ℕ) (y : Globals × Books)
    → is_some m.scull_devices ≡ true
    → PipesUp c o m
        (λ i j. r i j + once (mkdev m.scull_major c.scull_minor) c.scull_nr_devs i j)
        (λ i j. if among bare c.scull_nr_devs 0 i j then 1 else 0)
        k
        x
    → AccessUp x.0
        (λ i j.
          r i j
          + once (mkdev m.scull_major c.scull_minor) c.scull_nr_devs i j
          + (if o.p_region && o.p_devices then once x.0.scull_p_devno c.scull_p_nr_devs i j else 0))
        (λ i j.
          if o.p_region && o.p_devices && among pipes c.scull_p_nr_devs 0 i j
          then 1
          else (if among bare c.scull_nr_devs 0 i j then 1 else 0))
        k
        y
    → Loaded mkdev c r k y.0 y.1
finish_loading mkdev c o m r k x y up px ay =
    let piped : is_some y.0.scull_p_devices ≡ o.p_region && o.p_devices =
      ay.same.p_devices ∙ px.there in
    record {
      devices = ay.same.devices ∙ ap is_some px.devices ∙ up;
      books =
          rw (piped, ay.same.p_devno, ay.same.major, px.major)
            (recount _ _ ay.books (λ i j. refl) (λ i j. ground arith));
    }

pub init_devices-Loaded :
    (mkdev : ℕ → ℕ → ℕ) (c : Config) (p : Params) (o : Answers) (m : Globals) (l : Books)
    (r : Counter) (k : ℕ)
    → m.scull_p_devices ≡ none
    → o.devices ≡ true
    → o.a_region ≡ true
    → ((i : ℕ) → o.a_fails i ≡ false)
    → Shows l
        (λ x y. r x y + once (mkdev m.scull_major c.scull_minor) c.scull_nr_devs x y)
        (λ x y. 0)
        k
    → (let x = init_devices mkdev c p o m l in (x.2 ≡ ok 0) × Loaded mkdev c r k x.0 x.1)
unfolding init_devices
init_devices-Loaded mkdev c p o m l r k nothing up region adds s =
    let m1 = record m { scull_devices = some (replicate c.scull_nr_devs (new_dev p)) } in
    let dev = mkdev m.scull_major (c.scull_minor + c.scull_nr_devs) in
    let x = scull_p_init c o dev m1 (setup_cdevs bare c.scull_nr_devs 0 l) in
    let u =
      scull_p_init-PipesUp c o dev m1 _ _ _ k nothing
        (setup_cdevs-Shows bare c.scull_nr_devs 0 s) in
    rw up (
      refl,
      finish_loading mkdev c o m1 r k x (scull_access_init p o (dev + x.2) x.0 x.1) refl u
          (scull_access_init-AccessUp p o (dev + x.2) x.0 x.1 _ _ k region adds u.books),
    )
