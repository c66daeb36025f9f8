-- ===== src/Scull/Module/Tests.antt =====
-- Loading and unloading the module at concrete answers of the kernel.
use linux_kernel_module_chea.Base.{
  ℕ, ◌+◌, ◌*◌, ◌≡◌, refl, true, false, none, some, inr, [], ◌∷◌, replicate,
}
use linux_kernel_module_chea.Kernel.{ok}
use linux_kernel_module_chea.Scull.Params.{defaults}
use linux_kernel_module_chea.Scull.Access.{zeroed}
use linux_kernel_module_chea.Scull.Module.{
  Books, Globals, Config, Answers, scull_init_module, scull_cleanup_module,
}
use linux_kernel_module_chea.Scull.Module.Ledger.{Shows}
use linux_kernel_module_chea.Scull.Module.Unload.{scull_cleanup_module-scull_init_module}

-- MKDEV.
abbrev mkdev : ℕ → ℕ → ℕ
mkdev major minor = major * 1048576 + minor

abbrev config : Config
config = record { scull_minor = 0; scull_nr_devs = 4; scull_p_nr_devs = 4 }

-- The kernel grants everything but the memory of the pipes.
abbrev no_pipes : Answers
no_pipes = record {
  major = inr 250;
  devices = true;
  p_region = true;
  p_devices = false;
  a_region = true;
  a_fails = λ i. false;
}

abbrev no_memory : Answers
no_memory = record no_pipes { devices = false }

abbrev unloaded : Globals
unloaded = record {
  scull_major = 0;
  scull_devices = none;
  scull_p_devno = 0;
  scull_p_devices = none;
  scull_a_firstdev = 0;
  scull_access_devs = replicate 4 zeroed;
  scull_c_list = [];
}

abbrev empty_books : Books
empty_books = record { regions = λ x y. 0; refs = λ x y. 0; misuses = 0 }

scull_cleanup_module-scull_init_module_example :
    (let x = scull_init_module mkdev config defaults no_pipes unloaded empty_books in
      (x.2 ≡ ok 0)
      × Shows (scull_cleanup_module mkdev config defaults x.0 x.1).1 (λ x y. 0) (λ x y. 0) 0)
scull_cleanup_module-scull_init_module_example =
    scull_cleanup_module-scull_init_module mkdev config defaults defaults no_pipes 250 unloaded
      (scull_init_module mkdev config defaults no_pipes unloaded empty_books).0 empty_books
      (λ x y. refl) refl refl refl refl (λ i. refl)
      (record { major = refl; devices = refl; p_devno = refl; p_devices = refl; a_firstdev = refl })

-- A module with one device that holds a block, and a clone that holds another.
abbrev in_use : Globals
in_use = record unloaded {
  scull_devices = some (
      record {
        data' = some (some (replicate 2 (some 7)) ∷ []) ∷ [];
        quantum = 2;
        qset = 1;
        size = 2;
      }
      ∷ []);
  scull_c_list =
      (
        0,
        record {
          data' = some (some (replicate 2 (some 7)) ∷ []) ∷ [];
          quantum = 2;
          qset = 1;
          size = 2;
        },
      )
      ∷ [];
}
