-- ===== src/Scull/Module/Balance.antt =====
-- What loading the module asks of the kernel, unloading undoes.
use linux_kernel_module_chea.Base.{
  ℕ, ◌+◌, ◌≡◌, refl, Bool, true, false, ◌&&◌, ◌||◌, if◌then◌else◌, arith, Option, some, none, List,
}
use linux_kernel_module_chea.Scull.Params.{Params}
use linux_kernel_module_chea.Scull.Device.Defs.{Dev}
use linux_kernel_module_chea.Scull.Pipe.{Pipe}
use linux_kernel_module_chea.Scull.Module.{
  Counter, once, Books, bare, pipes, access, unregister_region, Globals, Config, scull_n_adevs,
  del_cdevs, free_devices, scull_p_cleanup, scull_access_cleanup, scull_cleanup_module,
}
use linux_kernel_module_chea.Scull.Module.Ledger.{
  Shows, recount, unregister_region-Shows, among, del_cdevs-Shows,
}

abbrev pub is_some {ℓ} : {A : Type ℓ} → Option A → Bool
is_some none = false
is_some (some a) = true

-- The use of the devices changes what they hold, but not which arrays there are and under which
-- numbers.
pub record Used (m m' : Globals) : Type 0 where
  pub major : m'.scull_major ≡ m.scull_major
  pub devices : is_some m'.scull_devices ≡ is_some m.scull_devices
  pub p_devno : m'.scull_p_devno ≡ m.scull_p_devno
  pub p_devices : is_some m'.scull_p_devices ≡ is_some m.scull_p_devices
  pub a_firstdev : m'.scull_a_firstdev ≡ m.scull_a_firstdev

free_devices-books :
    (c : Config) (p : Params) (ds : Option (List Dev)) (l : Books)
    → is_some ds ≡ true
    → (free_devices c p ds l).0 ≡ del_cdevs bare c.scull_nr_devs 0 l
unfolding free_devices
free_devices-books c p none l h = cc
free_devices-books c p (some ds) l h = refl

-- The books after `scull_p_cleanup`.
abbrev p_books : Config → Bool → ℕ → Books → Books
p_books c false devno l = l
p_books c true devno l =
    unregister_region devno c.scull_p_nr_devs (del_cdevs pipes c.scull_p_nr_devs 0 l)

scull_p_cleanup-books :
    (c : Config) (m : Globals) (l : Books) (o : Option (List Pipe))
    → m.scull_p_devices ≡ o
    → ((scull_p_cleanup c m l).1 ≡ p_books c (is_some o) m.scull_p_devno l)
      × ((scull_p_cleanup c m l).0.scull_a_firstdev ≡ m.scull_a_firstdev)
unfolding scull_p_cleanup
scull_p_cleanup-books c m l none e = rw (e, scull_p_cleanup) (refl, refl)
scull_p_cleanup-books c m l (some ds) e = rw (e, scull_p_cleanup) (refl, refl)

-- The books after `scull_cleanup_module`, where the bare devices are there.
abbrev pub unload_books :
    (mkdev : ℕ → ℕ → ℕ) → Config → (piped : Bool) → (major p_devno a_first : ℕ) → Books → Books
unload_books mkdev c piped major p_devno a_first l = unregister_region a_first scull_n_adevs (
    del_cdevs access scull_n_adevs 0 (
      p_books c piped p_devno (
        unregister_region (mkdev major c.scull_minor) c.scull_nr_devs
          (del_cdevs bare c.scull_nr_devs 0 l))))

pub scull_cleanup_module-books :
    (mkdev : ℕ → ℕ → ℕ) (c : Config) (p : Params) (m : Globals) (l : Books)
    → is_some m.scull_devices ≡ true
    → (scull_cleanup_module mkdev c p m l).1
      ≡ unload_books mkdev c
          (is_some m.scull_p_devices)
          m.scull_major
          m.scull_p_devno
          m.scull_a_firstdev
          l
unfolding scull_cleanup_module scull_access_cleanup
scull_cleanup_module-books mkdev c p m l h =
    let e1 = free_devices-books c p m.scull_devices l h in
    let e2 =
      scull_p_cleanup-books c m
        (unregister_region (mkdev m.scull_major c.scull_minor) c.scull_nr_devs
          (del_cdevs bare c.scull_nr_devs 0 l))
        m.scull_p_devices refl in
    rw (e1, e2.0, e2.1) refl

-- The references of a loaded module.
abbrev pub loaded_refs : Config → (piped : Bool) → Counter
loaded_refs c piped x y =
    if among bare c.scull_nr_devs 0 x y
      || (among access scull_n_adevs 0 x y || (piped && among pipes c.scull_p_nr_devs 0 x y))
    then 1
    else 0

abbrev pub loaded_regions : Counter → (b nb : ℕ) → (piped : Bool) → (p np a : ℕ) → Counter
loaded_regions r b nb piped p np a x y =
    r x y + once b nb x y + (if piped then once p np x y else 0) + once a scull_n_adevs x y

pub unload_books-Shows :
    (mkdev : ℕ → ℕ → ℕ) (c : Config) (piped : Bool) (major p a n : ℕ) (r : Counter) (l : Books)
    → Shows l
        (loaded_regions r (mkdev major c.scull_minor) c.scull_nr_devs piped p c.scull_p_nr_devs a)
        (loaded_refs c piped)
        n
    → Shows (unload_books mkdev c piped major p a l) r (λ x y. 0) n
unload_books-Shows mkdev c false major p a n r l s =
    let s1 = del_cdevs-Shows bare c.scull_nr_devs 0 (λ y h k. ground arith) s in
    let s2 =
      unregister_region-Shows (mkdev major c.scull_minor) c.scull_nr_devs (ground arith) s1 in
    let s3 = del_cdevs-Shows access scull_n_adevs 0 (λ y h k. ground arith) s2 in
    let s4 = unregister_region-Shows a scull_n_adevs (ground arith) s3 in
    recount _ _ s4 (λ x y. omega arith) (λ x y. ground arith)
unload_books-Shows mkdev c true major p a n r l s =
    let s1 = del_cdevs-Shows bare c.scull_nr_devs 0 (λ y h k. ground arith) s in
    let s2 =
      unregister_region-Shows (mkdev major c.scull_minor) c.scull_nr_devs (ground arith) s1 in
    let s3 = del_cdevs-Shows pipes c.scull_p_nr_devs 0 (λ y h k. ground arith) s2 in
    let s4 = unregister_region-Shows p c.scull_p_nr_devs (ground arith) s3 in
    let s5 = del_cdevs-Shows access scull_n_adevs 0 (λ y h k. ground arith) s4 in
    let s6 = unregister_region-Shows a scull_n_adevs (ground arith) s5 in
    recount _ _ s6 (λ x y. omega arith) (λ x y. ground arith)
