-- ===== src/Scull/Module.antt =====
-- `scull_init_module`, `scull_cleanup_module` and their friends for the pipes and for the devices
-- with access control, of kernel_modules/scull.c.
pub mod Ledger
pub mod Memory
pub mod Balance
pub mod Loading
pub mod Unload
mod Tests
use linux_kernel_module_chea.Base.{
  ℕ, zero, suc, ◌+◌, ◌-◌, Bool, true, false, Option, none, some, List, [], ◌∷◌, ◌==◌, ◌&&◌,
  if◌then◌else◌, replicate, ◌⊎◌, inl, inr,
}
use linux_kernel_module_chea.Kernel.{Errno, Ret, ok, err, nomem}
use linux_kernel_module_chea.Scull.Params.{Params}
use linux_kernel_module_chea.Scull.Device.Defs.{Dev, scull_trim}
use linux_kernel_module_chea.Scull.Pipe.{Pipe}
use linux_kernel_module_chea.Scull.Access.{Clones, zeroed}

-- How often something with two numbers stands in a ledger.
abbrev pub Counter : Type 0
Counter = ℕ → ℕ → ℕ

abbrev pub once : ℕ → ℕ → Counter
once a b x y = if x == a && y == b then 1 else 0

-- What the module has asked of the kernel and not yet undone: ranges of device numbers, by first
-- number and length, and references to character devices, by family and index. `misuses` counts
-- the calls that undo what is not there.
pub record Books : Type 0 where
  pub regions : Counter
  pub refs : Counter
  pub misuses : ℕ

-- The families of character devices: `scull_devices`, `scull_p_devices`, `scull_access_devs`.
abbrev pub bare : ℕ
bare = 0

abbrev pub pipes : ℕ
pipes = 1

abbrev pub access : ℕ
access = 2

abbrev pub register_region : ℕ → ℕ → Books → Books
register_region first count l = record l { regions = λ x y. l.regions x y + once first count x y }

abbrev pub unregister_region : ℕ → ℕ → Books → Books
unregister_region first count l = record l {
  regions = λ x y. l.regions x y - once first count x y;
  misuses = if l.regions first count == 0 then l.misuses + 1 else l.misuses;
}

-- `cdev_init` makes the first reference. `cdev_add` makes the device known, and keeps no other one.
abbrev pub cdev_init : ℕ → ℕ → Books → Books
cdev_init family i l = record l { refs = λ x y. if x == family && y == i then 1 else l.refs x y }

-- `kobject_put` and `cdev_del` give a reference back.
abbrev pub cdev_put : ℕ → ℕ → Books → Books
cdev_put family i l = record l {
  refs = λ x y. l.refs x y - once family i x y;
  misuses = if l.refs family i == 0 then l.misuses + 1 else l.misuses;
}

-- The variables of the module. The arrays are `none` for a null pointer.
pub record Globals : Type 0 where
  pub scull_major : ℕ
  pub scull_devices : Option (List Dev)
  pub scull_p_devno : ℕ
  pub scull_p_devices : Option (List Pipe)
  pub scull_a_firstdev : ℕ
  pub scull_access_devs : List Dev
  pub scull_c_list : Clones

-- The parameters that are set at load time only.
pub record Config : Type 0 where
  pub scull_minor : ℕ
  pub scull_nr_devs : ℕ
  pub scull_p_nr_devs : ℕ

-- SCULL_N_ADEVS.
abbrev pub scull_n_adevs : ℕ
scull_n_adevs = 4

-- The answers of the kernel while the module is loaded: the major number that it has reserved, or
-- an error; which of the other calls succeed; and for which access device `cdev_add` fails.
pub record Answers : Type 0 where
  pub major : Errno ⊎ ℕ
  pub devices : Bool
  pub p_region : Bool
  pub p_devices : Bool
  pub a_region : Bool
  pub a_fails : ℕ → Bool

-- The loops over `scull_setup_cdev` and `scull_p_setup_cdev`: `n` devices from number `i` on.
unfoldable pub setup_cdevs : (family n i : ℕ) → Books → Books
setup_cdevs family zero i l = l
setup_cdevs family (suc n) i l = setup_cdevs family n (i + 1) (cdev_init family i l)

-- `scull_access_setup`: where `cdev_add` fails, the reference is given back.
unfoldable pub scull_access_setup : Answers → ℕ → Books → Books
scull_access_setup o i l =
    let l' = cdev_init access i l in if o.a_fails i then cdev_put access i l' else l'

-- The loop of `scull_access_init`.
unfoldable pub setup_access : Answers → (n i : ℕ) → Books → Books
unfolding scull_access_setup
setup_access o zero i l = l
setup_access o (suc n) i l = setup_access o n (i + 1) (scull_access_setup o i l)

-- A `struct scull_pipe` of zeros.
abbrev pub zero_pipe : Pipe
zero_pipe = record {
  buffer = none;
  end = 0;
  buffersize = 0;
  rp = 0;
  wp = 0;
  nreaders = 0;
  nwriters = 0;
  async_queue = false;
}

-- `scull_p_init`, with how many devices it has set up.
unfoldable pub scull_p_init : Config → Answers → ℕ → Globals → Books → Globals × Books × ℕ
unfolding setup_cdevs
scull_p_init c o firstdev m l =
    let n = c.scull_p_nr_devs in
    let l' = register_region firstdev n l in
    let m' = record m { scull_p_devno = firstdev } in
    if o.p_region
    then (if o.p_devices
        then (
          record m' { scull_p_devices = some (replicate n zero_pipe) },
          setup_cdevs pipes n 0 l',
          n,
        )
        else (record m' { scull_p_devices = none }, unregister_region firstdev n l', 0))
    else (m, l, 0)

-- `scull_access_setup` also gives the devices their geometry.
abbrev pub shaped_by : Params → List Dev → List Dev
shaped_by p [] = []
shaped_by p (d ∷ ds) = record d { quantum = p.scull_quantum; qset = p.scull_qset } ∷ shaped_by p ds

-- `scull_access_init`.
unfoldable pub scull_access_init : Params → Answers → ℕ → Globals → Books → Globals × Books
unfolding setup_access
scull_access_init p o firstdev m l =
    if o.a_region
    then (
      record m { scull_a_firstdev = firstdev; scull_access_devs = shaped_by p m.scull_access_devs },
      setup_access o scull_n_adevs 0 (register_region firstdev scull_n_adevs l),
    )
    else (m, l)

-- The loops over `cdev_del`.
unfoldable pub del_cdevs : (family n i : ℕ) → Books → Books
del_cdevs family zero i l = l
del_cdevs family (suc n) i l = del_cdevs family n (i + 1) (cdev_put family i l)

-- The loops over `scull_trim`: the devices, and how many objects are freed.
unfoldable pub trim_devs : Params → List Dev → List Dev × ℕ
unfolding scull_trim
trim_devs p [] = ([], 0)
trim_devs p (d ∷ ds) =
    let (d', n) = scull_trim p d in let (ds', k) = trim_devs p ds in (d' ∷ ds', n + k)

-- The loop over the cloned devices, each of which is freed as well.
unfoldable pub free_clones : Params → Clones → ℕ
unfolding scull_trim
free_clones p [] = 0
free_clones p (c ∷ cs) = (scull_trim p c.1).1 + suc (free_clones p cs)

unfoldable pub free_buffers : List Pipe → ℕ
free_buffers [] = 0
free_buffers (d ∷ ds) = elim d.buffer [ none ↦ free_buffers ds | some b ↦ suc (free_buffers ds) ]

-- `scull_p_cleanup`, with the number of objects that it frees.
unfoldable pub scull_p_cleanup : Config → Globals → Books → Globals × Books × ℕ
unfolding del_cdevs free_buffers
scull_p_cleanup c m l = elim m.scull_p_devices [
  | none ↦ (m, l, 0)
  | some ds ↦ (
    record m { scull_p_devices = none },
    unregister_region m.scull_p_devno c.scull_p_nr_devs (del_cdevs pipes c.scull_p_nr_devs 0 l),
    suc (free_buffers ds),
  )
]

-- `scull_access_cleanup`.
unfoldable pub scull_access_cleanup : Params → Globals → Books → Globals × Books × ℕ
unfolding del_cdevs trim_devs free_clones
scull_access_cleanup p m l =
    let (ds, n) = trim_devs p m.scull_access_devs in
    (
      record m { scull_access_devs = ds; scull_c_list = [] },
      unregister_region m.scull_a_firstdev scull_n_adevs (del_cdevs access scull_n_adevs 0 l),
      n + free_clones p m.scull_c_list,
    )

-- The first part of `scull_cleanup_module`.
unfoldable pub free_devices : Config → Params → Option (List Dev) → Books → Books × ℕ
unfolding del_cdevs trim_devs
free_devices c p none l = (l, 0)
free_devices c p (some ds) l = (del_cdevs bare c.scull_nr_devs 0 l, suc (trim_devs p ds).1)

-- `scull_cleanup_module`. `mkdev` is the kernel's MKDEV.
unfoldable pub scull_cleanup_module :
    (mkdev : ℕ → ℕ → ℕ) → Config → Params → Globals → Books → Globals × Books × ℕ
unfolding free_devices scull_p_cleanup scull_access_cleanup
scull_cleanup_module mkdev c p m l =
    let (l1, n1) = free_devices c p m.scull_devices l in
    let l2 = unregister_region (mkdev m.scull_major c.scull_minor) c.scull_nr_devs l1 in
    let (m3, l3, n3) = scull_p_cleanup c m l2 in
    let (m4, l4, n4) = scull_access_cleanup p m3 l3 in (m4, l4, n1 + (n3 + n4))

abbrev pub new_dev : Params → Dev
new_dev p = record { data' = []; quantum = p.scull_quantum; qset = p.scull_qset; size = 0 }

-- From the devices on, once their numbers are reserved.
unfoldable pub init_devices :
    (mkdev : ℕ → ℕ → ℕ) → Config → Params → Answers → Globals → Books → Globals × Books × Ret
unfolding setup_cdevs scull_p_init scull_access_init scull_cleanup_module
init_devices mkdev c p o m l =
    let dev = mkdev m.scull_major (c.scull_minor + c.scull_nr_devs) in
    if o.devices
    then (let m1 = record m { scull_devices = some (replicate c.scull_nr_devs (new_dev p)) } in
        let (m2, l2, n) = scull_p_init c o dev m1 (setup_cdevs bare c.scull_nr_devs 0 l) in
        let (m3, l3) = scull_access_init p o (dev + n) m2 l2 in (m3, l3, ok 0))
    else (let (m1, l1, n) = scull_cleanup_module mkdev c p (record m { scull_devices = none }) l in
        (m1, l1, err nomem))

-- `scull_init_module`.
unfoldable pub scull_init_module :
    (mkdev : ℕ → ℕ → ℕ) → Config → Params → Answers → Globals → Books → Globals × Books × Ret
unfolding init_devices
scull_init_module mkdev c p o m l = elim o.major [
  | inl e ↦ (m, l, err e)
  | inr major ↦
      init_devices mkdev c p o (record m { scull_major = major })
        (register_region (mkdev major c.scull_minor) c.scull_nr_devs l)
]
