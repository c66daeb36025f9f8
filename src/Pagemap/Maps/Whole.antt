-- ===== src/Pagemap/Maps/Whole.antt =====
-- The whole of what one `read` has put in the buffer.
use linux_kernel_module_chea.Base.{
  ℕ, ◌+◌, ◌^◌, ◌≤◌, ◌<◌, ◌≡◌, refl, ◌∙◌, sym, ap, some, List, [], ◌∷◌, ◌++◌, All, length, replicate,
  arith,
}
use mathlib.Core.List.{append_assoc}
use linux_kernel_module_chea.Pagemap.{Entry, Pread}
use linux_kernel_module_chea.Pagemap.Reading.{Reads}
use linux_kernel_module_chea.Pagemap.Maps.{Chars, dump_line, lines, all_lines, dump_all}
use linux_kernel_module_chea.Pagemap.Maps.Line.{MapsLine, print_line, WellSpelled, Not, hex_value}
use linux_kernel_module_chea.Pagemap.Maps.Pages.{AllPages, by_file, dump_line-print_line}

pub print_lines : List MapsLine → Chars
print_lines [] = []
print_lines (l ∷ ls) = print_line l (print_lines ls)

-- A line without its end.
unfoldable pub body : MapsLine → Chars
body l =
    l.low_digits
    ++ (b'-'
        ∷ (l.high_digits
            ++ (b' '
                ∷ (l.perms
                    ++ (b' '
                        ∷ (l.offset
                            ++ (b' '
                                ∷ (l.dev
                                    ++ (b' '
                                        ∷ (l.inode
                                            ++ (b' '
                                                ∷ (replicate l.padding b' ' ++ l.name))))))))))))

append-cons :
    (xs : Chars) (c : ℕ) (ys zs rest : Chars)
    → ys ++ rest ≡ zs
    → (xs ++ (c ∷ ys)) ++ rest ≡ xs ++ (c ∷ zs)
append-cons xs c ys zs rest e =
    append_assoc xs (c ∷ ys) rest ∙ ap (λ (ws : Chars). xs ++ (c ∷ ws)) e

print_line-body : (l : MapsLine) (rest : Chars) → print_line l rest ≡ body l ++ (10 ∷ rest)
unfolding print_line body
print_line-body l rest = sym (
    append-cons l.low_digits b'-' _ _ _ (
      append-cons l.high_digits b' ' _ _ _ (
        append-cons l.perms b' ' _ _ _ (
          append-cons l.offset b' ' _ _ _ (
            append-cons l.dev b' ' _ _ _ (
              append-cons l.inode b' ' _ _ _
                (append_assoc (replicate l.padding b' ') l.name (10 ∷ rest))))))))

lines-append :
    (start xs rest : Chars)
    → All (Not 10) xs
    → lines start (xs ++ (10 ∷ rest)) ≡ start ∷ lines rest rest
unfolding lines
lines-append start [] rest h = refl
lines-append start (x ∷ xs) rest h = rw h.0 (lines-append start xs rest h.1)

all_lines-append :
    (xs rest : Chars)
    → All (Not 10) xs
    → 0 < length xs
    → all_lines (xs ++ rest) ≡ lines (xs ++ rest) (xs ++ rest)
unfolding all_lines lines
all_lines-append [] rest h long = absurd (omega (arith, long))
all_lines-append (x ∷ xs) rest h long = rw h.0 refl

-- A line whose fields have no line end, and whose range does not reach the last page.
pub record Fine (page_size : ℕ) (l : MapsLine) : Type 0 where
  pub spelled : WellSpelled l
  pub one_line : All (Not 10) (body l)
  pub below : hex_value 0 l.high_digits + page_size ≤ 2 ^ 64

-- Where each line starts.
starts : List MapsLine → List Chars
starts [] = []
starts (l ∷ ls) = print_lines (l ∷ ls) ∷ starts ls

longer : (xs : Chars) (c : ℕ) (ys : Chars) → 0 < length (xs ++ (c ∷ ys))
longer [] c ys = omega arith
longer (x ∷ xs) c ys = omega arith

body_long : (l : MapsLine) → 0 < length (body l)
unfolding body
body_long l = longer l.low_digits b'-' _

lines-starts :
    (page_size : ℕ) (ls : List MapsLine)
    → All (Fine page_size) ls
    → lines (print_lines ls) (print_lines ls) ≡ starts ls
unfolding print_lines lines starts
lines-starts page_size [] fine = refl
lines-starts page_size (l ∷ ls) fine =
    let e = print_line-body l (print_lines ls) in
    ap (λ (cs : Chars). lines (print_line l (print_lines ls)) cs) e
    ∙ lines-append (print_line l (print_lines ls)) (body l) (print_lines ls) fine.0.one_line
    ∙ ap (λ (xs : List Chars). print_line l (print_lines ls) ∷ xs)
        (lines-starts page_size ls fine.1)

all_lines-starts :
    (page_size : ℕ) (ls : List MapsLine)
    → All (Fine page_size) ls
    → all_lines (print_lines ls) ≡ starts ls
unfolding print_lines all_lines starts
all_lines-starts page_size [] fine = refl
all_lines-starts page_size (l ∷ ls) fine =
    let e = print_line-body l (print_lines ls) in
    let rest = 10 ∷ print_lines ls in
    ap all_lines e
    ∙ all_lines-append (body l) rest fine.0.one_line (body_long l)
    ∙ ap (λ (cs : Chars). lines cs cs) (sym e)
    ∙ lines-starts page_size (l ∷ ls) fine

-- What is to be printed for these lines, in order: for each its name, and the entries of its pages
-- that the page map has.
abbrev pub Dumped :
    (file : List ℕ) (page_size : ℕ) → List MapsLine → List (List (ℕ × Entry) × Chars) → Type 0
Dumped file page_size [] [] = Unit
Dumped file page_size [] (d ∷ ds) = ⊥
Dumped file page_size (l ∷ ls) [] = ⊥
Dumped file page_size (l ∷ ls) (d ∷ ds) =
    ((vs : List ℕ) × (AllPages page_size (hex_value 0 l.low_digits) (hex_value 0 l.high_digits) vs
        × (d ≡ (by_file file page_size vs, l.name))))
    × Dumped file page_size ls ds

dump_all-nil : (pread : ℕ → Pread) (page_size : ℕ) → dump_all pread page_size [] ≡ some []
unfolding dump_all
dump_all-nil pread page_size = refl

dump_all-cons :
    (pread : ℕ → Pread) (page_size : ℕ) (c : Chars) (cs : List Chars) (d : List (ℕ × Entry) × Chars)
    (ds : List (List (ℕ × Entry) × Chars))
    → dump_line pread page_size c ≡ some d
    → dump_all pread page_size cs ≡ some ds
    → dump_all pread page_size (c ∷ cs) ≡ some (d ∷ ds)
unfolding dump_all
dump_all-cons pread page_size c cs d ds e e' = rw (dump_all, e, e') refl

dump_all-starts :
    (file : List ℕ) (pread : ℕ → Pread) (page_size : ℕ) (ls : List MapsLine)
    → ((v : ℕ) → Reads file (pread v))
    → 0 < page_size
    → All (Fine page_size) ls
    → (ds : List (List (ℕ × Entry) × Chars)) × (Dumped file page_size ls ds
        × (dump_all pread page_size (starts ls) ≡ some ds))
unfolding starts print_lines
dump_all-starts file pread page_size [] r positive fine = ([], (tt, dump_all-nil pread page_size))
dump_all-starts file pread page_size (l ∷ ls) r positive fine =
    let (vs, (all, is)) =
      dump_line-print_line file pread page_size l (print_lines ls) r fine.0.spelled positive
        fine.0.below in
    let (ds, (rest, same)) = dump_all-starts file pread page_size ls r positive fine.1 in
    (
      (by_file file page_size vs, l.name) ∷ ds,
      (((vs, (all, refl)), rest), dump_all-cons pread page_size _ (starts ls) _ ds is same),
    )

-- If the reads of the page map succeed, and one `read` puts whole lines in the buffer, as the kernel
-- prints them and with ranges that do not reach the last page of the address space, then the program
-- prints, line by line, the name and the entries that the page map has for the pages of the range,
-- in order; it leaves out the pages that the page map does not reach.
pub dump_all-all_lines :
    (file : List ℕ) (pread : ℕ → Pread) (page_size : ℕ) (ls : List MapsLine)
    → ((v : ℕ) → Reads file (pread v))
    → 0 < page_size
    → All (Fine page_size) ls
    → (ds : List (List (ℕ × Entry) × Chars)) × (Dumped file page_size ls ds
        × (dump_all pread page_size (all_lines (print_lines ls)) ≡ some ds))
dump_all-all_lines file pread page_size ls r positive fine =
    rw (all_lines-starts page_size ls fine)
      (dump_all-starts file pread page_size ls r positive fine)
