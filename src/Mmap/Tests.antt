-- ===== src/Mmap/Tests.antt =====
-- A small page, mapped twice.
use linux_kernel_module_chea.Base.{
  ℕ, ◌+◌, ◌≡◌, refl, true, false, none, some, [], ◌∷◌, get_elem?, ltb, if◌then◌else◌, arith,
}
use linux_kernel_module_chea.Kernel.{ok}
use linux_kernel_module_chea.Mmap.{Mapped, open_file, mmap, add_place, vm_fault, read, write}
use linux_kernel_module_chea.Mmap.Pages.{
  unmapped, Runs, opened, maps, faults, unmaps, IsHeld, Runs-IsHeld,
}
use linux_kernel_module_chea.Mmap.Contents.{get_elem?-read-write}

abbrev fresh : Mapped
fresh = record {
  page = record { bytes = b'a' ∷ b's' ∷ b'd' ∷ b'f' ∷ 0 ∷ 0 ∷ []; count = 1 };
  vmas = [];
}

opens : open_file 6 true true ≡ some fresh
unfolding open_file
opens = refl

-- Two mappings, and the second has used the page.
used : Runs fresh (vm_fault 0 (mmap (mmap fresh)))
unfolding mmap
used = faults (mmap (mmap fresh)) 0 (maps (mmap fresh) (maps fresh opened)) (omega arith)

Runs-IsHeld_example : IsHeld 6 (vm_fault 0 (mmap (mmap fresh)))
Runs-IsHeld_example = Runs-IsHeld 6 fresh (vm_fault 0 (mmap (mmap fresh))) opens used

abbrev two_mappings : Mapped
two_mappings = record {
  page = record { bytes = b'a' ∷ b's' ∷ b'd' ∷ b'f' ∷ 0 ∷ 0 ∷ []; count = 2 };
  vmas = 1 ∷ 0 ∷ [];
}

reaches_two : Runs fresh two_mappings
unfolding mmap vm_fault add_place
reaches_two = used

abbrev no_mapping : Mapped
no_mapping = unmapped [] [] 0 (unmapped [] (0 ∷ []) 1 two_mappings)

reaches_none : Runs fresh no_mapping
reaches_none =
    unmaps (unmapped [] (0 ∷ []) 1 two_mappings) [] [] 0
      (unmaps two_mappings [] (0 ∷ []) 1 reaches_two refl) refl

get_elem?-read-write_example :
    let w = write (b'x' ∷ b'y' ∷ [], false) 2 3 fresh in
    let r = read false 9 1 w.mapped in
    ((w.ret ≡ ok 2) × (r.ret ≡ ok 3))
    × ((k : ℕ)
        → get_elem? r.out k ≡ (
            if ltb k 3
            then (if ltb (1 + k) 2
                then get_elem? (b'x' ∷ b'y' ∷ []) (1 + k)
                else get_elem? fresh.page.bytes (1 + k))
            else none))
get_elem?-read-write_example =
    get_elem?-read-write fresh (b'x' ∷ b'y' ∷ []) 2 3 9 1 (omega arith) refl
