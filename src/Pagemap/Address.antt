-- ===== src/Pagemap/Address.antt =====
-- Entries as the kernel packs them, and the addresses that they give.
use linux_kernel_module_chea.Base.{
  ℕ, ◌+◌, ◌*◌, ◌/◌, ◌%◌, ◌^◌, ◌≤◌, ◌<◌, ◌≡◌, ◌≢◌, refl, ◌∙◌, true, Option, none, some, [], List,
  leb, length, take, drop, arith, div_unique, mod_unique,
}
use linux_kernel_module_chea.Pagemap.{
  Entry, Pread, word, decode, paddr_of, lkmc_pagemap_get_entry, lkmc_pagemap_virt_to_phys_user,
  Stored, full, failed, out_of_fuel, decoded, fill_data,
}
use linux_kernel_module_chea.Pagemap.Reading.{Reads, fill_data_ends, lkmc_pagemap_get_entry_lem}

-- The format of an entry: the page frame number in bits 0 to 54, the flags in bits 55 and 61 to 63.
unfoldable pub packed : Entry → ℕ
packed e =
    e.pfn + 2 ^ 55 * e.soft_dirty + 2 ^ 61 * e.file_page + 2 ^ 62 * e.swapped + 2 ^ 63 * e.present

-- The fields are as wide as their bit-fields.
pub record Fits (e : Entry) : Type 0 where
  pub pfn : e.pfn < 2 ^ 55
  pub soft_dirty : e.soft_dirty < 2
  pub file_page : e.file_page < 2
  pub swapped : e.swapped < 2
  pub present : e.present < 2

pub decode-packed : (e : Entry) → Fits e → decode (packed e) ≡ e
unfolding packed
decode-packed e f =
    let p : packed e % 2 ^ 55 ≡ e.pfn = omega arith in
    let d : packed e / 2 ^ 55 % 2 ≡ e.soft_dirty = omega arith in
    let g : packed e / 2 ^ 61 % 2 ≡ e.file_page = omega arith in
    let s : packed e / 2 ^ 62 % 2 ≡ e.swapped = omega arith in
    let t : packed e / 2 ^ 63 % 2 ≡ e.present = omega arith in
    λ i. record { pfn = p i; soft_dirty = d i; file_page = g i; swapped = s i; present = t i }

decode-Fits : (word : ℕ) → Fits (decode word)
decode-Fits n = record {
  pfn = omega arith;
  soft_dirty = omega arith;
  file_page = omega arith;
  swapped = omega arith;
  present = omega arith;
}

-- What holds of the entry, if there is one.
abbrev pub EntryHas : (Entry → Type 0) → Option Entry → Type 0
EntryHas Q none = Unit
EntryHas Q (some e) = Q e

decoded-Fits : (s : Stored) → EntryHas Fits (decoded s)
decoded-Fits (full bs) = decode-Fits (word bs)
decoded-Fits failed = tt
decoded-Fits out_of_fuel = tt

-- Whatever `pread` answers, with errors and short reads, the loop over its answers comes to its end,
-- and the fields of an entry that is returned fit their bit-fields.
pub lkmc_pagemap_get_entry-Fits :
    (pread : Pread) (page_size vaddr : ℕ)
    → (fill_data pread (vaddr / page_size * 8) 8 0 [] ≢ out_of_fuel)
      × EntryHas Fits (lkmc_pagemap_get_entry pread page_size vaddr)
unfolding lkmc_pagemap_get_entry
lkmc_pagemap_get_entry-Fits pread page_size vaddr = (
  fill_data_ends pread (vaddr / page_size * 8) 8 0 [] (omega arith),
  decoded-Fits (fill_data pread (vaddr / page_size * 8) 8 0 []),
)

-- If the file can be opened, and `pread` reads it, and it holds a packed entry for the page of the
-- address, whose fields fit their bit-fields and whose frame ends within the 64 bits of an address,
-- and the page size is positive, then the address that `lkmc_pagemap_virt_to_phys_user` gives lies in the frame of the
-- entry and as far into it as the virtual address into its page, and the file is closed again.
pub lkmc_pagemap_virt_to_phys_user_lem :
    (file : List ℕ) (pread : Pread) (page_size vaddr : ℕ) (e : Entry)
    → Reads file pread
    → vaddr / page_size * 8 + 8 ≤ length file
    → word (take 8 (drop (vaddr / page_size * 8) file)) ≡ packed e
    → Fits e
    → 0 < page_size
    → (e.pfn + 1) * page_size ≤ 2 ^ 64
    → (p : ℕ) × ((lkmc_pagemap_virt_to_phys_user true pread page_size vaddr ≡ (some p, 0))
        × ((p / page_size ≡ e.pfn) × (p % page_size ≡ vaddr % page_size)))
unfolding lkmc_pagemap_virt_to_phys_user
lkmc_pagemap_virt_to_phys_user_lem file pread page_size vaddr e r there holds fits positive below =
    let enough : leb (vaddr / page_size * 8 + 8) (length file) ≡ true = ground arith in
    let entry : lkmc_pagemap_get_entry pread page_size vaddr ≡ some e =
      lkmc_pagemap_get_entry_lem file pread page_size vaddr r
      ∙ rw (enough, holds, decode-packed e fits) refl in
    let small : vaddr % page_size < page_size = grind (arith, positive) in
    let fit : e.pfn * page_size + vaddr % page_size < 2 ^ 64 = grind (arith, below, small) in
    let same : paddr_of page_size vaddr e ≡ e.pfn * page_size + vaddr % page_size =
      omega (arith, fit) in
    (
      paddr_of page_size vaddr e,
      (
        rw entry refl,
        (
          rw same (div_unique e.pfn page_size (vaddr % page_size) small),
          rw same (mod_unique e.pfn page_size (vaddr % page_size) small),
        ),
      ),
    )
