-- ===== src/Pagemap/Maps/Line.antt =====
-- What `parse_line` finds in a line as the kernel prints it.
use linux_kernel_module_chea.Base.{
  ℕ, zero, suc, ◌+◌, ◌*◌, ◌%◌, ◌^◌, ◌≤◌, ◌<◌, ◌≡◌, refl, ◌∙◌, sym, ap, true, false, Option, none,
  some, [], ◌∷◌, ◌++◌, ◌==◌, All, replicate, arith, Bool-cases, inl, inr,
}
use linux_kernel_module_chea.Pagemap.Maps.{
  Chars, hex_digit, address, skip_to, skip_spaces, to_newline, over_dash, skip_fields, parse_line,
}

-- A digit of a number to the base 16, in lower case.
abbrev pub IsHex : ℕ → Type 0
IsHex c = (d : ℕ) × ((hex_digit c ≡ some d) × (d < 16))

-- The number that digits spell behind `n`.
unfoldable pub hex_value : ℕ → Chars → ℕ
hex_value n [] = n
hex_value n (c ∷ cs) = elim (hex_digit c) [ none ↦ n | some d ↦ hex_value (n * 16 + d) cs ]

abbrev pub Not : ℕ → ℕ → Type 0
Not stop c = (c == stop) ≡ false

le-hex_value : (n : ℕ) (ds : Chars) → n ≤ hex_value n ds
unfolding hex_value
le-hex_value n [] = omega arith
le-hex_value n (c ∷ cs) = go (hex_digit c) (λ m. le-hex_value m cs)
  where
    go :
        (o : Option ℕ)
        → ((m : ℕ) → m ≤ hex_value m cs)
        → n ≤ elim o [ none ↦ n | some d ↦ hex_value (n * 16 + d) cs ]
    go none h = omega arith
    go (some d) h = omega (arith, h (n * 16 + d))

address-hex_value :
    (stop sum : ℕ) (ds rest : Chars)
    → All IsHex ds
    → All (Not stop) ds
    → hex_value sum ds < 2 ^ 64
    → address stop sum (ds ++ (stop ∷ rest)) ≡ (hex_value sum ds, stop ∷ rest)
unfolding address hex_value
address-hex_value stop sum [] rest hex other fits =
    let here : (stop == stop) ≡ true = ground arith in rw here refl
address-hex_value stop sum (c ∷ cs) rest hex other fits =
    let (d, (e, small)) = hex.0 in
    let fits' : hex_value (sum * 16 + d) cs < 2 ^ 64 = rw (e, hex_value) at fits in
    let low = le-hex_value (sum * 16 + d) cs in
    let exact : (sum * 16 % 2 ^ 64 + d) % 2 ^ 64 ≡ sum * 16 + d = omega (arith, fits', low) in
    rw (other.0, e, exact, hex_value)
      (address-hex_value stop (sum * 16 + d) cs rest hex.1 other.1 fits')

skip_to-append :
    (stop : ℕ) (xs rest : Chars)
    → All (Not stop) xs
    → skip_to stop (xs ++ (stop ∷ rest)) ≡ stop ∷ rest
unfolding skip_to
skip_to-append stop [] rest h = let here : (stop == stop) ≡ true = ground arith in rw here refl
skip_to-append stop (x ∷ xs) rest h = rw h.0 (skip_to-append stop xs rest h.1)

to_newline-append : (xs rest : Chars) → All (Not 10) xs → to_newline (xs ++ (10 ∷ rest)) ≡ xs
unfolding to_newline
to_newline-append [] rest h = refl
to_newline-append (x ∷ xs) rest h =
    rw h.0 (ap (λ (ys : Chars). x ∷ ys) (to_newline-append xs rest h.1))

-- A name does not start with a space.
abbrev pub IsName : Chars → Type 0
IsName [] = Unit
IsName (c ∷ cs) = Not b' ' c

skip_spaces-replicate :
    (n : ℕ) (name rest : Chars)
    → IsName name
    → skip_spaces (replicate n b' ' ++ (name ++ (10 ∷ rest))) ≡ name ++ (10 ∷ rest)
unfolding skip_spaces
skip_spaces-replicate zero [] rest h = refl
skip_spaces-replicate zero (c ∷ cs) rest h = rw h refl
skip_spaces-replicate (suc n) name rest h = skip_spaces-replicate n name rest h

-- A line as the kernel prints it: the two addresses, four fields without spaces (the permissions,
-- the offset, the device and the inode), and the name behind one space or more.
pub record MapsLine : Type 0 where
  pub low_digits : Chars
  pub high_digits : Chars
  pub perms : Chars
  pub offset : Chars
  pub dev : Chars
  pub inode : Chars
  pub padding : ℕ
  pub name : Chars

-- Behind the four fields.
abbrev tail_of : MapsLine → Chars → Chars
tail_of l rest = replicate l.padding b' ' ++ (l.name ++ (10 ∷ rest))

abbrev from_perms : MapsLine → Chars → Chars
from_perms l rest =
    l.perms
    ++ (b' ' ∷ (l.offset ++ (b' ' ∷ (l.dev ++ (b' ' ∷ (l.inode ++ (b' ' ∷ tail_of l rest)))))))

abbrev fields_of : MapsLine → Chars → Chars
fields_of l rest = b' ' ∷ from_perms l rest

unfoldable pub print_line : MapsLine → Chars → Chars
print_line l rest = l.low_digits ++ (b'-' ∷ (l.high_digits ++ fields_of l rest))

-- The parts of a line are spelled as the kernel spells them.
pub record WellSpelled (l : MapsLine) : Type 0 where
  pub low_hex : All IsHex l.low_digits
  pub high_hex : All IsHex l.high_digits
  pub low_fits : hex_value 0 l.low_digits < 2 ^ 64
  pub high_fits : hex_value 0 l.high_digits < 2 ^ 64
  pub perms : All (Not b' ') l.perms
  pub offset : All (Not b' ') l.offset
  pub dev : All (Not b' ') l.dev
  pub inode : All (Not b' ') l.inode
  pub name : IsName l.name
  pub one_line : All (Not 10) l.name

IsHex-Not : (stop : ℕ) (ds : Chars) → hex_digit stop ≡ none → All IsHex ds → All (Not stop) ds
IsHex-Not stop [] n h = tt
IsHex-Not stop (c ∷ cs) n h = (
  elim (Bool-cases (c == stop)) [
    | inr other ↦ other
    | inl same ↦
        let is : c ≡ stop = ground (arith, same) in
        absurd (let e = sym n ∙ ap hex_digit (sym is) ∙ h.0.1.0 in cc)
  ],
  IsHex-Not stop cs n h.1,
)

none_left : (cs : Chars) → skip_fields 0 cs ≡ cs
unfolding skip_fields
none_left cs = refl

dash_none : hex_digit b'-' ≡ none
unfolding hex_digit
dash_none = refl

space_none : hex_digit b' ' ≡ none
unfolding hex_digit
space_none = refl

-- Over one field.
skip_fields-append :
    (n : ℕ) (field rest : Chars)
    → All (Not b' ') field
    → skip_fields (suc n) (b' ' ∷ (field ++ (b' ' ∷ rest))) ≡ skip_fields n (b' ' ∷ rest)
unfolding skip_fields
skip_fields-append n field rest h = ap (skip_fields n) (skip_to-append b' ' field rest h)

-- From the four fields on.
fields_lem :
    (l : MapsLine) (rest : Chars)
    → WellSpelled l
    → to_newline (skip_spaces (skip_fields 4 (fields_of l rest))) ≡ l.name
fields_lem l rest w =
    let end = tail_of l rest in
    let s3 = l.inode ++ (b' ' ∷ end) in
    let s2 = l.dev ++ (b' ' ∷ s3) in
    let s1 = l.offset ++ (b' ' ∷ s2) in
    let skipped : skip_fields 4 (fields_of l rest) ≡ b' ' ∷ end =
      skip_fields-append 3 l.perms s1 w.perms
      ∙ skip_fields-append 2 l.offset s2 w.offset
      ∙ skip_fields-append 1 l.dev s3 w.dev
      ∙ skip_fields-append 0 l.inode end w.inode
      ∙ none_left (b' ' ∷ end) in
    ap (λ (cs : Chars). to_newline (skip_spaces cs)) skipped
    ∙ ap to_newline (skip_spaces-replicate (suc l.padding) l.name rest w.name)
    ∙ to_newline-append l.name rest w.one_line

at_dash : (cs : Chars) → over_dash (skip_to b'-' (b'-' ∷ cs)) ≡ cs
unfolding skip_to
at_dash cs = refl

-- Whatever follows it in the buffer, a line as the kernel prints it is parsed to its two addresses
-- and its name.
pub parse_line-print_line :
    (l : MapsLine) (rest : Chars)
    → WellSpelled l
    → parse_line (print_line l rest) ≡ record {
      low = hex_value 0 l.low_digits;
      high = hex_value 0 l.high_digits;
      lib_name = l.name;
    }
unfolding parse_line print_line
parse_line-print_line l rest w =
    let low =
      address-hex_value b'-' 0 l.low_digits (l.high_digits ++ fields_of l rest) w.low_hex
        (IsHex-Not b'-' l.low_digits dash_none w.low_hex) w.low_fits in
    let f1 =
      address-hex_value b' ' 0 l.high_digits (from_perms l rest) w.high_hex
        (IsHex-Not b' ' l.high_digits space_none w.high_hex) w.high_fits in
    rw (low, at_dash, f1, fields_lem l rest w) refl
