-- ===== src/Pagemap/Tests.antt =====
-- A file with the entry of one page, read a few bytes at a time.
use linux_kernel_module_chea.Base.{
  ℕ, ◌-◌, ◌/◌, ◌%◌, ◌≡◌, ◌≢◌, refl, true, some, List, [], ◌∷◌, ◌++◌, min, length, take, drop,
  replicate, arith,
}
use linux_kernel_module_chea.Pagemap.{
  fill_data, out_of_fuel, Entry, Pread, word, lkmc_pagemap_get_entry,
  lkmc_pagemap_virt_to_phys_user,
}
use linux_kernel_module_chea.Pagemap.Reading.{Reads, lkmc_pagemap_get_entry_lem}
use linux_kernel_module_chea.Pagemap.Address.{
  packed, Fits, EntryHas, lkmc_pagemap_get_entry-Fits, lkmc_pagemap_virt_to_phys_user_lem,
}

-- The entry of page 1: present, in frame 5.
abbrev file : List ℕ
file = replicate 8 0 ++ (5 ∷ 0 ∷ 0 ∷ 0 ∷ 0 ∷ 0 ∷ 0 ∷ 128 ∷ [])

abbrev entry : Entry
entry = record { pfn = 5; soft_dirty = 0; file_page = 0; swapped = 0; present = 1 }

-- At most three bytes at a time.
abbrev slow : Pread
slow k count offset = some (take (min (min count (length file - offset)) 3) (drop offset file))

slow-Reads : Reads file slow
slow-Reads = record {
  size = λ k count offset. min (min count (length file - offset)) 3;
  bytes = λ k count offset. refl;
  at_most = λ k count offset. omega arith;
  some_read = λ k count offset p l. omega (arith, p, l);
}

lkmc_pagemap_get_entry_lem_example : lkmc_pagemap_get_entry slow 4096 5000 ≡ some entry
unfolding word
lkmc_pagemap_get_entry_lem_example = lkmc_pagemap_get_entry_lem file slow 4096 5000 slow-Reads

lkmc_pagemap_virt_to_phys_user_lem_example :
    (p : ℕ) × ((lkmc_pagemap_virt_to_phys_user true slow 4096 5000 ≡ (some p, 0))
      × ((p / 4096 ≡ 5) × (p % 4096 ≡ 904)))
unfolding word packed
lkmc_pagemap_virt_to_phys_user_lem_example =
    lkmc_pagemap_virt_to_phys_user_lem file slow 4096 5000 entry slow-Reads (omega arith) refl
      (record {
        pfn = omega arith;
        soft_dirty = omega arith;
        file_page = omega arith;
        swapped = omega arith;
        present = omega arith;
      })
      (omega arith) (omega arith)

lkmc_pagemap_get_entry-Fits_example :
    (fill_data slow 8 8 0 [] ≢ out_of_fuel) × EntryHas Fits (lkmc_pagemap_get_entry slow 4096 5000)
lkmc_pagemap_get_entry-Fits_example = lkmc_pagemap_get_entry-Fits slow 4096 5000
