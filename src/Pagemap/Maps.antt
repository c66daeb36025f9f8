-- ===== src/Pagemap/Maps.antt =====
-- userland/linux/pagemap_dump.c: the lines of /proc/pid/maps, and the pages of their ranges.
pub mod Line
pub mod Pages
pub mod Whole
mod Tests
use linux_kernel_module_chea.Base.{
  ℕ, zero, suc, ◌+◌, ◌-◌, ◌*◌, ◌/◌, ◌%◌, ◌^◌, Bool, true, false, ◌&&◌, ◌||◌, Option, none, some,
  List, [], ◌∷◌, ◌++◌, ◌==◌, ltb, leb, if◌then◌else◌, take,
}
use linux_kernel_module_chea.Pagemap.{Entry, Pread, lkmc_pagemap_get_entry}

-- Characters of the buffer, from some place on; its end is the end of the list.
abbrev pub Chars : Type 0
Chars = List ℕ

unfoldable pub hex_digit : ℕ → Option ℕ
hex_digit c =
    if leb b'0' c && leb c b'9'
    then some (c - b'0')
    else (if leb b'a' c && leb c b'f' then some (c - b'a' + 10) else none)

-- The loop over the digits of an address, up to `stop`: the address, of 64 bits, and the place where
-- it ends.
unfoldable pub address : (stop sum : ℕ) → Chars → ℕ × Chars
address stop sum [] = (sum, [])
address stop sum (c ∷ cs) =
    let shifted = sum * 16 % 2 ^ 64 in
    let rest = λ (d : ℕ). address stop ((shifted + d) % 2 ^ 64) cs in
    if c == stop
    then (sum, c ∷ cs)
    else elim (hex_digit c) [ none ↦ (shifted, cs) | some d ↦ rest d ]

-- `while (buffer[x] != stop) x++`.
unfoldable pub skip_to : (stop : ℕ) → Chars → Chars
skip_to stop [] = []
skip_to stop (c ∷ cs) = let rest = skip_to stop cs in if c == stop then c ∷ cs else rest

-- `while (buffer[x] == ' ') x++`.
unfoldable pub skip_spaces : Chars → Chars
skip_spaces [] = []
skip_spaces (c ∷ cs) = let rest = skip_spaces cs in if c == b' ' then rest else c ∷ cs

-- The characters before the end of the line.
unfoldable pub to_newline : Chars → Chars
to_newline [] = []
to_newline (c ∷ cs) = let rest = to_newline cs in if c == 10 then [] else c ∷ rest

-- `x++`.
abbrev pub one_on : Chars → Chars
one_on [] = []
one_on (c ∷ cs) = cs

-- `if (buffer[x] == '-') x++`.
abbrev pub over_dash : Chars → Chars
over_dash [] = []
over_dash (c ∷ cs) = if c == b'-' then cs else c ∷ cs

-- The loop over the fields between the range and the name.
unfoldable pub skip_fields : ℕ → Chars → Chars
unfolding skip_to
skip_fields zero cs = cs
skip_fields (suc n) cs = skip_fields n (skip_to b' ' (one_on cs))

pub record Range : Type 0 where
  pub low : ℕ
  pub high : ℕ
  pub lib_name : Chars

-- A line, from its first character on.
unfoldable pub parse_line : Chars → Range
unfolding address skip_to skip_fields skip_spaces to_newline
parse_line cs =
    let (low, after_low) = address b'-' 0 cs in
    let (high, after_high) = address b' ' 0 (over_dash (skip_to b'-' after_low)) in
    record {
      low = low;
      high = high;
      lib_name = to_newline (skip_spaces (skip_fields 4 after_high));
    }

-- The loop over the pages of a range from `vaddr` on. `none`: it has not ended within its fuel.
unfoldable pub pages : (page_size high fuel vaddr : ℕ) → Option (List ℕ)
pages page_size high zero vaddr = if ltb vaddr high then none else some []
pages page_size high (suc fuel) vaddr =
    let rest = pages page_size high fuel ((vaddr + page_size) % 2 ^ 64) in
    if ltb vaddr high then elim rest [ none ↦ none | some vs ↦ some (vaddr ∷ vs) ] else some []

-- What is printed for these pages: a line for each that has an entry. The calls of `pread` may
-- answer differently for each page.
unfoldable pub rows : (ℕ → Pread) → (page_size : ℕ) → List ℕ → List (ℕ × Entry)
unfolding lkmc_pagemap_get_entry
rows pread page_size [] = []
rows pread page_size (v ∷ vs) =
    let rest = rows pread page_size vs in
    elim (lkmc_pagemap_get_entry (pread v) page_size v) [ none ↦ rest | some e ↦ (v, e) ∷ rest ]

-- The rounds of the loop over the pages.
abbrev pub page_fuel : (page_size : ℕ) → Range → ℕ
page_fuel page_size r = (r.high - r.low) / page_size + 1

-- What the program prints for a line: a row for each page, and the name.
unfoldable pub dump_range :
    (ℕ → Pread) → (page_size : ℕ) → Range → Option (List (ℕ × Entry) × Chars)
unfolding pages rows
dump_range pread page_size r = elim (pages page_size r.high (page_fuel page_size r) r.low) [
  | none ↦ none
  | some vs ↦ some (rows pread page_size vs, r.lib_name)
]

unfoldable pub dump_line : (ℕ → Pread) → (page_size : ℕ) → Chars → Option (List (ℕ × Entry) × Chars)
unfolding dump_range parse_line
dump_line pread page_size cs = dump_range pread page_size (parse_line cs)

-- The loop over what one `read` has put in the buffer: where each line starts that ends in it, with
-- the rest of the buffer. `start` is where the line at hand starts. What stands behind the last end
-- of a line is not parsed.
unfoldable pub lines : (start : Chars) → Chars → List Chars
lines start [] = []
lines start (c ∷ cs) =
    let after = lines cs cs in
    let going = lines start cs in if c == 10 then start ∷ after else going

-- A new line in the first place ends no line.
unfoldable pub all_lines : Chars → List Chars
unfolding lines
all_lines [] = []
all_lines (c ∷ cs) = if c == 10 then lines cs cs else lines (c ∷ cs) cs

-- What the program prints for what one `read` has put in the buffer.
unfoldable pub dump_all :
    (ℕ → Pread) → (page_size : ℕ) → List Chars → Option (List (List (ℕ × Entry) × Chars))
unfolding dump_line
dump_all pread page_size [] = some []
dump_all pread page_size (l ∷ ls) =
    let rest = dump_all pread page_size ls in
    elim (dump_line pread page_size l) [
      | none ↦ none
      | some d ↦ elim rest [ none ↦ none | some ds ↦ some (d ∷ ds) ]
    ]
