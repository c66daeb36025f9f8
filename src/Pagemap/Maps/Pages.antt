-- ===== src/Pagemap/Maps/Pages.antt =====
-- The pages of a range, and what is printed for them.
use linux_kernel_module_chea.Base.{
  ℕ, zero, suc, ◌+◌, ◌-◌, ◌*◌, ◌/◌, ◌%◌, ◌^◌, ◌≤◌, ◌<◌, ◌≡◌, refl, ◌∙◌, ap, true, false, Option,
  none, some, List, [], ◌∷◌, ltb, leb, if◌then◌else◌, length, get_elem?, take, drop, arith,
  Bool-cases, inl, inr,
}
use native.Mathlib.Nat.{mod-lt, div-add-mod'}
use linux_kernel_module_chea.Pagemap.{Entry, Pread, word, decode}
use linux_kernel_module_chea.Pagemap.Reading.{Reads, lkmc_pagemap_get_entry_lem}
use linux_kernel_module_chea.Pagemap.Maps.{
  Chars, Range, pages, rows, page_fuel, dump_range, dump_line,
}
use linux_kernel_module_chea.Pagemap.Maps.Line.{
  MapsLine, print_line, WellSpelled, hex_value, parse_line-print_line,
}

-- The `k`-th page of a range is `k` pages behind its start.
abbrev pub AllPages : (page_size low high : ℕ) → List ℕ → Type 0
AllPages page_size low high vs =
    (k : ℕ)
    → get_elem? vs k ≡ (if ltb (low + k * page_size) high then some (low + k * page_size) else none)

record Listed (page_size low high : ℕ) (o : Option (List ℕ)) : Type 0 where
  vaddrs : List ℕ
  is : o ≡ some vaddrs
  all : AllPages page_size low high vaddrs

AllPages-none : (page_size low high : ℕ) → high ≤ low → AllPages page_size low high []
AllPages-none page_size low high over k =
    let e : ltb (low + k * page_size) high ≡ false = ground (arith, over) in rw e refl

AllPages-cons :
    (page_size low high : ℕ) (vs : List ℕ)
    → low < high
    → AllPages page_size (low + page_size) high vs
    → AllPages page_size low high (low ∷ vs)
AllPages-cons page_size low high vs lt h zero =
    let e : low + 0 * page_size ≡ low = omega arith in
    let e' : ltb low high ≡ true = ground (arith, lt) in rw (e, e') refl
AllPages-cons page_size low high vs lt h (suc k) =
    let e : low + suc k * page_size ≡ low + page_size + k * page_size = grind arith in rw e (h k)

pages-Listed :
    (page_size high fuel low : ℕ)
    → high + page_size ≤ 2 ^ 64
    → high ≤ low + fuel * page_size
    → Listed page_size low high (pages page_size high fuel low)
unfolding pages
pages-Listed page_size high zero low small enough =
    let over : ltb low high ≡ false = ground (arith, enough) in
    rw over (record {
      vaddrs = [];
      is = refl;
      all = AllPages-none page_size low high (omega (arith, enough));
    })
pages-Listed page_size high (suc fuel) low small enough = elim (Bool-cases (ltb low high)) [
  | inr over ↦ rw over (record {
    vaddrs = [];
    is = refl;
    all = AllPages-none page_size low high (ground (arith, over));
  })
  | inl more ↦
      let lt : low < high = ground (arith, more) in
      let exact : (low + page_size) % 2 ^ 64 ≡ low + page_size = omega (arith, lt, small) in
      let rest = pages-Listed page_size high fuel (low + page_size) small (grind (arith, enough)) in
      rw (more, exact, rest.is)
        (record {
          vaddrs = low ∷ rest.vaddrs;
          is = refl;
          all = AllPages-cons page_size low high rest.vaddrs lt rest.all;
        })
]

-- The rows of these pages by the file: a page that the file does not reach has none.
unfoldable pub by_file : (file : List ℕ) (page_size : ℕ) → List ℕ → List (ℕ × Entry)
by_file file page_size [] = []
by_file file page_size (v ∷ vs) =
    let offset = v / page_size * 8 in
    let rest = by_file file page_size vs in
    if leb (offset + 8) (length file)
    then (v, decode (word (take 8 (drop offset file)))) ∷ rest
    else rest

rows-by_file :
    (file : List ℕ) (pread : ℕ → Pread) (page_size : ℕ) (vs : List ℕ)
    → ((v : ℕ) → Reads file (pread v))
    → rows pread page_size vs ≡ by_file file page_size vs
unfolding rows by_file
rows-by_file file pread page_size [] r = refl
rows-by_file file pread page_size (v ∷ vs) r =
    let e = lkmc_pagemap_get_entry_lem file (pread v) page_size v (r v) in
    let ih = rows-by_file file pread page_size vs r in
    elim (Bool-cases (leb (v / page_size * 8 + 8) (length file))) [
      | inl there ↦
          let e' = rw there at e in
          rw (there, e', rows)
            (ap
              (λ (xs : List (ℕ × Entry)).
                (v, decode (word (take 8 (drop (v / page_size * 8) file)))) ∷ xs)
              ih)
      | inr over ↦ let e' = rw over at e in rw (over, e', rows) ih
    ]

page_fuel-enough :
    (page_size low high : ℕ)
    → 0 < page_size
    → high ≤ low + ((high - low) / page_size + 1) * page_size
page_fuel-enough page_size low high positive =
    let parts = div-add-mod' (high - low) page_size in
    let last = mod-lt (high - low) positive in grind (arith, parts, last)

dump_range-rows :
    (pread : ℕ → Pread) (page_size : ℕ) (r : Range) (vs : List ℕ)
    → pages page_size r.high (page_fuel page_size r) r.low ≡ some vs
    → dump_range pread page_size r ≡ some (rows pread page_size vs, r.lib_name)
unfolding dump_range
dump_range-rows pread page_size r vs e = rw (dump_range, e) refl

-- If the reads of the page map succeed, then for a line as the kernel prints it, with a range that
-- does not reach the last page of the address space, the program gives the name of the line and, for
-- each page from the start of the range to its end in order, the entry that the page map has for it;
-- it leaves out the pages that the page map does not reach.
pub dump_line-print_line :
    (file : List ℕ) (pread : ℕ → Pread) (page_size : ℕ) (l : MapsLine) (rest : Chars)
    → ((v : ℕ) → Reads file (pread v))
    → WellSpelled l
    → 0 < page_size
    → hex_value 0 l.high_digits + page_size ≤ 2 ^ 64
    → (vs : List ℕ) × (AllPages page_size (hex_value 0 l.low_digits) (hex_value 0 l.high_digits) vs
        × (dump_line pread page_size (print_line l rest)
            ≡ some (by_file file page_size vs, l.name)))
unfolding dump_line
dump_line-print_line file pread page_size l rest r w positive small =
    let low = hex_value 0 l.low_digits in
    let high = hex_value 0 l.high_digits in
    let p =
      pages-Listed page_size high ((high - low) / page_size + 1) low small
        (page_fuel-enough page_size low high positive) in
    (
      p.vaddrs,
      (
        p.all,
        ap (dump_range pread page_size) (parse_line-print_line l rest w)
            ∙ dump_range-rows pread page_size _ p.vaddrs p.is
            ∙ ap (λ (xs : List (ℕ × Entry)). some (xs, l.name))
                (rows-by_file file pread page_size p.vaddrs r),
      ),
    )
