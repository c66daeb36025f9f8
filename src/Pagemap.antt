-- ===== src/Pagemap.antt =====
-- lkmc/pagemap.h: entries of /proc/pid/pagemap, and physical addresses from them.
pub mod Reading
pub mod Address
pub mod Maps
mod Tests
use linux_kernel_module_chea.Base.{
  ℕ, zero, suc, ◌+◌, ◌-◌, ◌*◌, ◌/◌, ◌%◌, ◌^◌, Bool, true, false, Option, none, some, List, [], ◌∷◌,
  ◌++◌, ◌==◌, ltb, if◌then◌else◌, length,
}

-- `LkmcPagemapEntry`.
pub record Entry : Type 0 where
  pub pfn : ℕ
  pub soft_dirty : ℕ
  pub file_page : ℕ
  pub swapped : ℕ
  pub present : ℕ

-- What the calls of `pread` answer: the `k`-th one, for that many bytes at an offset, returns these
-- bytes, or fails.
abbrev pub Pread : Type 0
Pread = (k count offset : ℕ) → Option (List ℕ)

-- How the loop ends: with the bytes that it has stored, with a call that fails or that returns
-- nothing, or not within its fuel.
pub data Stored : Type 0 where
  full : List ℕ → Stored
  failed : Stored
  out_of_fuel : Stored

-- One round, after a `pread` that returns these bytes.
abbrev pub take_in : (List ℕ → Stored) → List ℕ → List ℕ → Stored
take_in again so_far [] = failed
take_in again so_far (b ∷ bs) = again (so_far ++ (b ∷ bs))

-- The loop that fills `data`, of 8 bytes, from `offset`.
unfoldable pub fill_data : Pread → (offset fuel k : ℕ) → List ℕ → Stored
fill_data pread offset zero k so_far = if ltb (length so_far) 8 then out_of_fuel else full so_far
fill_data pread offset (suc fuel) k so_far =
    if ltb (length so_far) 8
    then elim (pread k (8 - length so_far) (offset + length so_far)) [
      | none ↦ failed
      | some bs ↦ take_in (fill_data pread offset fuel (k + 1)) so_far bs
    ]
    else full so_far

-- A number from its bytes, the lowest first.
unfoldable pub word : List ℕ → ℕ
word [] = 0
word (b ∷ bs) = b + 256 * word bs

-- The fields of `data`; the masks are remainders and the shifts quotients.
abbrev pub decode : ℕ → Entry
decode d = record {
  pfn = d % 2 ^ 55;
  soft_dirty = d / 2 ^ 55 % 2;
  file_page = d / 2 ^ 61 % 2;
  swapped = d / 2 ^ 62 % 2;
  present = d / 2 ^ 63 % 2;
}

abbrev pub decoded : Stored → Option Entry
decoded (full bs) = some (decode (word bs))
decoded failed = none
decoded out_of_fuel = none

-- `lkmc_pagemap_get_entry`: `none` stands for the result 1. `uintptr_t` has 64 bits.
unfoldable pub lkmc_pagemap_get_entry : Pread → (page_size vaddr : ℕ) → Option Entry
unfolding fill_data
lkmc_pagemap_get_entry pread page_size vaddr =
    decoded (fill_data pread (vaddr / page_size * 8) 8 0 [])

-- The physical address, as `uintptr_t`.
abbrev pub paddr_of : (page_size vaddr : ℕ) → Entry → ℕ
paddr_of page_size vaddr e = (e.pfn * page_size + vaddr % page_size) % 2 ^ 64

-- `lkmc_pagemap_virt_to_phys_user`: the address, if the result is 0, and how many file descriptors
-- it leaves open. `opens` says whether the file can be opened.
unfoldable pub lkmc_pagemap_virt_to_phys_user :
    (opens : Bool) → Pread → (page_size vaddr : ℕ) → Option ℕ × ℕ
unfolding lkmc_pagemap_get_entry
lkmc_pagemap_virt_to_phys_user opens pread page_size vaddr =
    if opens
    then elim (lkmc_pagemap_get_entry pread page_size vaddr) [
      | none ↦ (none, 1)
      | some e ↦ (some (paddr_of page_size vaddr e), 0)
    ]
    else (none, 0)
