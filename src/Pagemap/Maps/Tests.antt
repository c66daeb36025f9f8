-- ===== src/Pagemap/Maps/Tests.antt =====
-- A line of two pages, of which the page map has the first.
use linux_kernel_module_chea.Base.{
  ℕ, ◌-◌, ◌≡◌, refl, some, List, [], ◌∷◌, ◌++◌, min, length, take, drop, replicate, arith,
}
use linux_kernel_module_chea.Pagemap.{Entry, Pread}
use linux_kernel_module_chea.Pagemap.Reading.{Reads}
use linux_kernel_module_chea.Pagemap.Maps.{Chars, hex_digit, parse_line, dump_all, lines, all_lines}
use linux_kernel_module_chea.Pagemap.Maps.Line.{
  MapsLine, print_line, WellSpelled, hex_value, parse_line-print_line,
}
use linux_kernel_module_chea.Pagemap.Maps.Whole.{
  print_lines, body, Fine, Dumped, dump_all-all_lines,
}

-- The entry of page 1: present, in frame 5.
abbrev page_map : List ℕ
page_map = replicate 8 0 ++ (5 ∷ 0 ∷ 0 ∷ 0 ∷ 0 ∷ 0 ∷ 0 ∷ 128 ∷ [])

-- At most three bytes at a time.
abbrev slow : Pread
slow k count offset =
    some (take (min (min count (length page_map - offset)) 3) (drop offset page_map))

slow-Reads : Reads page_map slow
slow-Reads = record {
  size = λ k count offset. min (min count (length page_map - offset)) 3;
  bytes = λ k count offset. refl;
  at_most = λ k count offset. omega arith;
  some_read = λ k count offset p l. omega (arith, p, l);
}

-- 1000-3000 r 0 0 0  x
abbrev line : MapsLine
line = record {
  low_digits = b'1' ∷ b'0' ∷ b'0' ∷ b'0' ∷ [];
  high_digits = b'3' ∷ b'0' ∷ b'0' ∷ b'0' ∷ [];
  perms = b'r' ∷ [];
  offset = b'0' ∷ [];
  dev = b'0' ∷ [];
  inode = b'0' ∷ [];
  padding = 1;
  name = b'x' ∷ [];
}

line-WellSpelled : WellSpelled line
unfolding hex_digit hex_value
line-WellSpelled = record {
  low_hex = (
    (1, (refl, omega arith)),
    ((0, (refl, omega arith)), ((0, (refl, omega arith)), ((0, (refl, omega arith)), tt))),
  );
  high_hex = (
    (3, (refl, omega arith)),
    ((0, (refl, omega arith)), ((0, (refl, omega arith)), ((0, (refl, omega arith)), tt))),
  );
  low_fits = omega arith;
  high_fits = omega arith;
  perms = (refl, tt);
  offset = (refl, tt);
  dev = (refl, tt);
  inode = (refl, tt);
  name = refl;
  one_line = (refl, tt);
}

parse_line-print_line_example :
    parse_line (print_line line []) ≡ record { low = 4096; high = 12288; lib_name = b'x' ∷ [] }
unfolding hex_value hex_digit
parse_line-print_line_example = parse_line-print_line line [] line-WellSpelled

line-Fine : Fine 4096 line
unfolding body hex_value hex_digit
line-Fine = record {
  spelled = line-WellSpelled;
  one_line = (
    refl,
    (
      refl,
      (
        refl,
        (
          refl,
          (
            refl,
            (
              refl,
              (
                refl,
                (
                  refl,
                  (
                    refl,
                    (
                      refl,
                      (
                        refl,
                        (refl, (refl, (refl, (refl, (refl, (refl, (refl, (refl, (refl, tt))))))))),
                      ),
                    ),
                  ),
                ),
              ),
            ),
          ),
        ),
      ),
    ),
  );
  below = omega arith;
}

dump_all-all_lines_example :
    (ds : List (List (ℕ × Entry) × Chars)) × (Dumped page_map 4096 (line ∷ line ∷ []) ds
      × (dump_all (λ v. slow) 4096 (all_lines (print_lines (line ∷ line ∷ []))) ≡ some ds))
dump_all-all_lines_example =
    dump_all-all_lines page_map (λ v. slow) 4096 (line ∷ line ∷ []) (λ v. slow-Reads) (omega arith)
      (line-Fine, (line-Fine, tt))

-- Of a line that one `read` cuts off, nothing is parsed.
cut_off : all_lines (b'1' ∷ 10 ∷ b'2' ∷ []) ≡ (b'1' ∷ 10 ∷ b'2' ∷ []) ∷ []
unfolding all_lines lines
cut_off = refl
