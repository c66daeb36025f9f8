-- ===== src/Scull/Module/Memory.antt =====
-- The memory that the module holds when it is unloaded.
use linux_kernel_module_chea.Base.{
  ℕ, suc, ◌+◌, ◌≡◌, refl, ap, Option, none, some, List, [], ◌∷◌, arith, All,
}
use linux_kernel_module_chea.Scull.Params.{Params}
use linux_kernel_module_chea.Scull.Device.Defs.{Dev, scull_trim}
use linux_kernel_module_chea.Scull.Device.Shape.{IsShaped, objects_held, free_sets-objects_held}
use linux_kernel_module_chea.Scull.Pipe.{Pipe}
use linux_kernel_module_chea.Scull.Access.{Clones}
use linux_kernel_module_chea.Scull.Module.{
  Books, unregister_region, Globals, Config, trim_devs, free_clones, free_buffers, free_devices,
  scull_p_cleanup, scull_access_cleanup, scull_cleanup_module,
}

unfoldable pub devs_held : List Dev → ℕ
devs_held [] = 0
devs_held (d ∷ ds) = objects_held d.data' + devs_held ds

-- A clone is an object itself.
unfoldable clones_held : Clones → ℕ
clones_held [] = 0
clones_held (c ∷ cs) = suc (objects_held c.1.data' + clones_held cs)

unfoldable buffers_held : List Pipe → ℕ
buffers_held [] = 0
buffers_held (d ∷ ds) = elim d.buffer [ none ↦ 0 | some b ↦ 1 ] + buffers_held ds

-- An array that is there is one object besides what its entries hold.
unfoldable array_held {ℓ} : {A : Type ℓ} → (List A → ℕ) → Option (List A) → ℕ
array_held f none = 0
array_held f (some ds) = suc (f ds)

-- All objects that the module has been given and not yet freed.
unfoldable pub held : Globals → ℕ
unfolding devs_held clones_held buffers_held array_held
held m =
    array_held devs_held m.scull_devices
    + array_held buffers_held m.scull_p_devices
    + (devs_held m.scull_access_devs + clones_held m.scull_c_list)

abbrev AllShaped : Option (List Dev) → Type 0
AllShaped none = Unit
AllShaped (some ds) = All IsShaped ds

-- All devices are in shape.
pub record InShape (m : Globals) : Type 0 where
  pub devices : AllShaped m.scull_devices
  pub access_devs : All IsShaped m.scull_access_devs
  pub clones : All (λ (c : ℕ × Dev). IsShaped c.1) m.scull_c_list

trim_devs-devs_held :
    (p : Params) (ds : List Dev) → All IsShaped ds → (trim_devs p ds).1 ≡ devs_held ds
unfolding trim_devs devs_held scull_trim
trim_devs-devs_held p [] h = refl
trim_devs-devs_held p (d ∷ ds) h =
    rw (free_sets-objects_held d.quantum d.qset d.data' h.0, trim_devs-devs_held p ds h.1) refl

trim_devs_empty : (p : Params) (ds : List Dev) → devs_held (trim_devs p ds).0 ≡ 0
unfolding trim_devs devs_held scull_trim objects_held
trim_devs_empty p [] = refl
trim_devs_empty p (d ∷ ds) = omega (arith, trim_devs_empty p ds)

free_clones-clones_held :
    (p : Params) (cs : Clones)
    → All (λ (c : ℕ × Dev). IsShaped c.1) cs
    → free_clones p cs ≡ clones_held cs
unfolding free_clones clones_held scull_trim
free_clones-clones_held p [] h = refl
free_clones-clones_held p (c ∷ cs) h = omega (
  arith,
  free_sets-objects_held c.1.quantum c.1.qset c.1.data' h.0,
  free_clones-clones_held p cs h.1,
)

free_buffers-buffers_held : (ds : List Pipe) → free_buffers ds ≡ buffers_held ds
unfolding free_buffers buffers_held
free_buffers-buffers_held [] = refl
free_buffers-buffers_held (d ∷ ds) = go d.buffer refl (free_buffers-buffers_held ds)
  where
    go :
        (b : _)
        → d.buffer ≡ b
        → free_buffers ds ≡ buffers_held ds
        → free_buffers (d ∷ ds) ≡ buffers_held (d ∷ ds)
    go none e rest = rw e (omega (arith, rest))
    go (some b) e rest = rw e (omega (arith, rest))

free_devices-array_held :
    (c : Config) (p : Params) (ds : Option (List Dev)) (l : Books)
    → AllShaped ds
    → (free_devices c p ds l).1 ≡ array_held devs_held ds
unfolding free_devices array_held
free_devices-array_held c p none l h = refl
free_devices-array_held c p (some ds) l h = rw (trim_devs-devs_held p ds h) refl

-- `scull_p_cleanup` frees the pipes, and leaves the other devices as they are.
record PipesDown (m : Globals) (x : Globals × Books × ℕ) : Type 0 where
  freed : x.2 ≡ array_held buffers_held m.scull_p_devices
  none_left : x.0.scull_p_devices ≡ none
  access_devs : x.0.scull_access_devs ≡ m.scull_access_devs
  clones : x.0.scull_c_list ≡ m.scull_c_list

scull_p_cleanup-PipesDown :
    (c : Config) (m : Globals) (l : Books) (o : Option (List Pipe))
    → m.scull_p_devices ≡ o
    → PipesDown m (scull_p_cleanup c m l)
unfolding scull_p_cleanup array_held
scull_p_cleanup-PipesDown c m l none e =
    rw (e, scull_p_cleanup)
      (record { freed = refl; none_left = e; access_devs = refl; clones = refl })
scull_p_cleanup-PipesDown c m l (some ds) e =
    rw (e, scull_p_cleanup)
      (record {
        freed = (ap suc (free_buffers-buffers_held ds));
        none_left = refl;
        access_devs = refl;
        clones = refl;
      })

-- Unloading the module frees all the memory that it holds: every array of devices, every clone,
-- every buffer of a pipe and, if the devices are in shape, all that is stored in them. No pipes and
-- no clones are left, and what is left of the devices with access control holds nothing.
pub scull_cleanup_module_frees_all :
    (mkdev : ℕ → ℕ → ℕ) (c : Config) (p : Params) (m : Globals) (l : Books)
    → InShape m
    → (let x = scull_cleanup_module mkdev c p m l in
        (x.2 ≡ held m)
        × (x.0.scull_p_devices ≡ none)
        × (x.0.scull_c_list ≡ [])
        × (devs_held x.0.scull_access_devs ≡ 0))
unfolding scull_cleanup_module scull_access_cleanup held
scull_cleanup_module_frees_all mkdev c p m l h =
    let l1 = free_devices c p m.scull_devices l in
    let l2 = unregister_region (mkdev m.scull_major c.scull_minor) c.scull_nr_devs l1.0 in
    let d = scull_p_cleanup-PipesDown c m l2 m.scull_p_devices refl in
    rw
      (
        free_devices-array_held c p m.scull_devices l h.devices,
        d.freed,
        d.none_left,
        d.access_devs,
        d.clones,
        trim_devs-devs_held p m.scull_access_devs h.access_devs,
        free_clones-clones_held p m.scull_c_list h.clones,
      )
      (omega arith, refl, refl, trim_devs_empty p m.scull_access_devs)
