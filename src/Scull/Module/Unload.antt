-- ===== src/Scull/Module/Unload.antt =====
-- Loading the module and unloading it, as a whole.
use linux_kernel_module_chea.Base.{ℕ, ◌+◌, ◌≡◌, ◌≢◌, refl, true, false, arith, ◌∙◌, none, inr}
use mathlib.Core.Path.{subst}
use linux_kernel_module_chea.Kernel.{ok, err, nomem}
use linux_kernel_module_chea.Scull.Params.{Params}
use linux_kernel_module_chea.Scull.Module.{
  Books, Globals, Config, Answers, access, scull_n_adevs, register_region, scull_p_cleanup,
  scull_access_cleanup, free_devices, scull_cleanup_module, init_devices, scull_init_module,
}
use linux_kernel_module_chea.Scull.Module.Ledger.{
  Shows, register_region-Shows, unregister_region-Shows, unregister_region-stray, del_cdevs-stray,
}
use linux_kernel_module_chea.Scull.Module.Balance.{
  is_some, Used, scull_cleanup_module-books, unload_books-Shows,
}
use linux_kernel_module_chea.Scull.Module.Loading.{Loaded, init_devices-Loaded}

unloads :
    (mkdev : ℕ → ℕ → ℕ) (c : Config) (p : Params) (r : ℕ → ℕ → ℕ) (k : ℕ) (m m' : Globals)
    (l : Books)
    → Loaded mkdev c r k m l
    → Used m m'
    → Shows (scull_cleanup_module mkdev c p m' l).1 r (λ x y. 0) k
unloads mkdev c p r k m m' l h u =
    let there : is_some m'.scull_devices ≡ true = u.devices ∙ h.devices in
    rw
      (
        scull_cleanup_module-books mkdev c p m' l there,
        u.p_devices,
        u.major,
        u.p_devno,
        u.a_firstdev,
      )
      (unload_books-Shows mkdev c (is_some m.scull_p_devices) m.scull_major m.scull_p_devno
        m.scull_a_firstdev k r l h.books)

-- If the kernel grants the major number, the memory of the bare devices and the numbers of the
-- access devices, and adds these, then the module loads, whatever becomes of the pipes; and when it
-- is unloaded after any use, all device numbers and all references are given back that it has
-- taken, and nothing else: no call undoes what is not there.
pub scull_cleanup_module-scull_init_module :
    (mkdev : ℕ → ℕ → ℕ) (c : Config) (p p' : Params) (o : Answers) (major : ℕ) (m m' : Globals)
    (l : Books)
    → ((x y : ℕ) → l.refs x y ≡ 0)
    → m.scull_p_devices ≡ none
    → o.major ≡ inr major
    → o.devices ≡ true
    → o.a_region ≡ true
    → ((i : ℕ) → o.a_fails i ≡ false)
    → Used (scull_init_module mkdev c p o m l).0 m'
    → ((scull_init_module mkdev c p o m l).2 ≡ ok 0)
      × Shows
          (scull_cleanup_module mkdev c p' m' (scull_init_module mkdev c p o m l).1).1
          l.regions
          (λ x y. 0)
          l.misuses
unfolding scull_init_module
scull_cleanup_module-scull_init_module mkdev c p p' o major m m' l clean nothing got up region adds
      used =
    let m1 = record m { scull_major = major } in
    let l1 = register_region (mkdev major c.scull_minor) c.scull_nr_devs l in
    let before : Shows l l.regions (λ x y. 0) l.misuses = record {
      regions = λ x y. refl;
      refs = clean;
      misuses = refl;
    } in
    let loaded =
      init_devices-Loaded mkdev c p o m1 l1 l.regions l.misuses nothing up region adds
        (register_region-Shows (mkdev major c.scull_minor) c.scull_nr_devs before) in
    let is : scull_init_module mkdev c p o m l ≡ init_devices mkdev c p o m1 l1 = rw got refl in
    let used' : Used (init_devices mkdev c p o m1 l1).0 m' =
      subst (λ (x : Globals × Books × _). Used x.0 m') is used in
    rw is (loaded.0, unloads mkdev c p' l.regions l.misuses _ m' _ loaded.1 used')

-- If there is no memory for the bare devices, loading fails, but the clean up then gives back four
-- character devices that were never set up, and a range of numbers that was never taken.
pub scull_init_module_misuses :
    (mkdev : ℕ → ℕ → ℕ) (c : Config) (p : Params) (o : Answers) (major : ℕ) (m : Globals)
    (l : Books)
    → ((x y : ℕ) → l.refs x y ≡ 0)
    → m.scull_p_devices ≡ none
    → o.major ≡ inr major
    → o.devices ≡ false
    → l.regions m.scull_a_firstdev scull_n_adevs ≡ 0
    → mkdev major c.scull_minor ≢ m.scull_a_firstdev
    → ((scull_init_module mkdev c p o m l).2 ≡ err nomem)
      × ((scull_init_module mkdev c p o m l).1.misuses ≡ l.misuses + 5)
unfolding scull_init_module init_devices scull_cleanup_module free_devices scull_p_cleanup
    scull_access_cleanup
scull_init_module_misuses mkdev c p o major m l clean nothing got down stray other =
    let b = mkdev major c.scull_minor in
    let before : Shows l l.regions (λ x y. 0) l.misuses = record {
      regions = λ x y. refl;
      refs = clean;
      misuses = refl;
    } in
    let s1 = register_region-Shows b c.scull_nr_devs before in
    let s2 = unregister_region-Shows b c.scull_nr_devs (ground arith) s1 in
    let s3 = del_cdevs-stray access scull_n_adevs 0 s2 in
    let s4 = unregister_region-stray m.scull_a_firstdev scull_n_adevs (ground arith) s3 in
    rw (got, init_devices, down, nothing) (refl, s4.misuses ∙ omega arith)
