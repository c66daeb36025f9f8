-- ===== src/Pagemap/Reading.antt =====
-- The loop of `lkmc_pagemap_get_entry`, however short its reads are.
use linux_kernel_module_chea.Base.{
  ℕ, zero, suc, ◌+◌, ◌-◌, ◌*◌, ◌/◌, ◌≤◌, ◌<◌, ◌≡◌, ◌≢◌, refl, ap, true, false, Option, none, some,
  List, [], ◌∷◌, ◌++◌, ltb, leb, if◌then◌else◌, length, take, drop, arith, min, inl, inr,
  Bool-cases, length-take, length-drop, length-append,
}
use native.Mathlib.Numerals.{unary_clauses}
use linux_kernel_module_chea.Pagemap.{
  Pread, Stored, full, failed, out_of_fuel, take_in, fill_data, word, decode, decoded,
  lkmc_pagemap_get_entry,
}

-- Eight rounds are always enough, whatever `pread` answers.
pub fill_data_ends :
    (pread : Pread) (offset fuel k : ℕ) (so_far : List ℕ)
    → 8 ≤ length so_far + fuel
    → fill_data pread offset fuel k so_far ≢ out_of_fuel
unfolding fill_data
fill_data_ends pread offset zero k so_far enough e =
    let stop : ltb (length so_far) 8 ≡ false = ground arith in let e' = rw stop at e in cc
fill_data_ends pread offset (suc fuel) k so_far enough e =
    elim (Bool-cases (ltb (length so_far) 8)) [
      | inr stop ↦ let e' = rw (stop, fill_data) at e in cc
      | inl on ↦
          let e' = rw (on, fill_data) at e in
          go (pread k (8 - length so_far) (offset + length so_far))
            (λ xs. fill_data_ends pread offset fuel (k + 1) xs) e'
    ]
  where
    go :
        (o : Option (List ℕ))
        → ((xs : List ℕ)
            → 8 ≤ length xs + fuel
            → fill_data pread offset fuel (k + 1) xs ≢ out_of_fuel)
        → elim o [
          | none ↦ failed
          | some bs ↦ take_in (λ x. fill_data pread offset fuel (k + 1) x) so_far bs
        ]
          ≢ out_of_fuel
    go none rest e = cc
    go (some []) rest e = cc
    go (some (b ∷ bs)) rest e =
        rest (so_far ++ (b ∷ bs)) (omega (arith, enough, length-append so_far (b ∷ bs))) e

-- `pread` reads this file, without an error: it returns between one and `count` of the bytes at the
-- offset, and nothing only at the end.
pub record Reads (file : List ℕ) (pread : Pread) : Type 0 where
  pub size : (k count offset : ℕ) → ℕ
  pub bytes :
      (k count offset : ℕ)
      → pread k count offset ≡ some (take (size k count offset) (drop offset file))
  pub at_most : (k count offset : ℕ) → size k count offset ≤ min count (length file - offset)
  pub some_read : (k count offset : ℕ) → 0 < count → offset < length file → 0 < size k count offset

take-append_take : (xs : List ℕ) (a b : ℕ) → take a xs ++ take b (drop a xs) ≡ take (a + b) xs
take-append_take xs zero b = let e : b ≡ 0 + b = omega arith in ap (λ (k : ℕ). take k xs) e
take-append_take [] (suc a) zero = simp unary_clauses refl
take-append_take [] (suc a) (suc b) = simp unary_clauses refl
take-append_take (x ∷ xs) (suc a) b =
    let e : suc a + b ≡ suc (a + b) = omega arith in
    rw e (ap (λ (ys : List ℕ). x ∷ ys) (take-append_take xs a b))

drop-drop : (xs : List ℕ) (a b : ℕ) → drop b (drop a xs) ≡ drop (a + b) xs
drop-drop xs zero b = let e : b ≡ 0 + b = omega arith in ap (λ (k : ℕ). drop k xs) e
drop-drop [] (suc a) zero = simp unary_clauses refl
drop-drop [] (suc a) (suc b) = simp unary_clauses refl
drop-drop (x ∷ xs) (suc a) b =
    let e : suc a + b ≡ suc (a + b) = omega arith in rw e (drop-drop xs a b)

taken :
    (again : List ℕ → Stored) (so_far bs : List ℕ) (w : Stored)
    → (length bs ≡ 0 → failed ≡ w)
    → (0 < length bs → again (so_far ++ bs) ≡ w)
    → take_in again so_far bs ≡ w
taken again so_far [] w h k = h refl
taken again so_far (b ∷ bs) w h k = k (omega arith)

module _ (file : List ℕ) (pread : Pread) (r : Reads file pread) (offset : ℕ) where
  -- What the loop comes to.
  abbrev whole : Stored
  whole = if leb (offset + 8) (length file) then full (take 8 (drop offset file)) else failed

  stops :
      (l : ℕ)
      → l ≡ 8
      → length (take l (drop offset file)) ≡ l
      → full (take l (drop offset file)) ≡ whole
  stops l e size =
      let there : leb (offset + 8) (length file) ≡ true =
        ground (arith, e, size, length-take l (drop offset file), length-drop offset file) in
      rw (there, e) refl

  fill_data-whole :
      (fuel k l : ℕ)
      → l ≤ 8
      → 8 ≤ l + fuel
      → length (take l (drop offset file)) ≡ l
      → fill_data pread offset fuel k (take l (drop offset file)) ≡ whole
  unfolding fill_data
  fill_data-whole zero k l most enough size =
      let stop : ltb l 8 ≡ false = ground arith in
      rw (size, fill_data, stop) (stops l (omega arith) size)
  fill_data-whole (suc fuel) k l most enough size = elim (Bool-cases (ltb l 8)) [
    | inr stop ↦ rw (size, fill_data, stop) (stops l (ground (arith, stop)) size)
    | inl on ↦
        let le : l < 8 = ground (arith, on) in
        let n = r.size k (8 - l) (offset + l) in
        let most' = r.at_most k (8 - l) (offset + l) in
        let more = r.some_read k (8 - l) (offset + l) (ground (arith, on)) in
        let got = length-take n (drop (offset + l) file) in
        let left = length-drop (offset + l) file in
        let next : take l (drop offset file) ++ take n (drop (offset + l) file)
            ≡ take (l + n) (drop offset file) =
          rw⁻¹ (drop-drop file offset l) (take-append_take (drop offset file) l n) in
        rw (size, fill_data, on, r.bytes k (8 - l) (offset + l))
          (taken (λ x. fill_data pread offset fuel (k + 1) x) (take l (drop offset file))
            (take n (drop (offset + l) file)) whole
            (λ none_left.
              let over : leb (offset + 8) (length file) ≡ false =
                ground (arith, none_left, got, left, more, on) in
              rw over refl)
            (λ some_there. rw next (
              fill_data-whole fuel (k + 1) (l + n) (omega (arith, most', le))
                (omega (arith, enough, got, some_there))
                (omega (
                  arith,
                  most',
                  got,
                  left,
                  length-take (l + n) (drop offset file),
                  length-drop offset file,
                )))))
  ]

-- If `pread` reads a file, `lkmc_pagemap_get_entry` finds in it the entry of the page of the address,
-- in however many pieces the kernel hands it out; it fails exactly if the file ends before the entry
-- does.
pub lkmc_pagemap_get_entry_lem :
    (file : List ℕ) (pread : Pread) (page_size vaddr : ℕ)
    → Reads file pread
    → lkmc_pagemap_get_entry pread page_size vaddr ≡ (
        if leb (vaddr / page_size * 8 + 8) (length file)
        then some (decode (word (take 8 (drop (vaddr / page_size * 8) file))))
        else none)
unfolding lkmc_pagemap_get_entry
lkmc_pagemap_get_entry_lem file pread page_size vaddr r =
    let offset = vaddr / page_size * 8 in
    let e = fill_data-whole file pread r offset 8 0 0 (omega arith) (omega arith) refl in
    elim (Bool-cases (leb (offset + 8) (length file))) [
      | inl there ↦ let e' = rw there at e in rw there (ap decoded e')
      | inr over ↦ let e' = rw over at e in rw over (ap decoded e')
    ]
