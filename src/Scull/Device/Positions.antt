-- ===== src/Scull/Device/Positions.antt =====
-- What a bare device holds at each position, and which positions a write covers.
use linux_kernel_module_chea.Base.{
  ℕ, ◌+◌, ◌-◌, ◌*◌, ◌≤◌, ◌≡◌, refl, Bool, true, false, ◌&&◌, arith, ltb, leb, if◌then◌else◌,
  Bool-cases, inl, inr, ap,
}
use linux_kernel_module_chea.Kernel.{Cell}
use linux_kernel_module_chea.Scull.Device.Defs.{Dev, Place}
use linux_kernel_module_chea.Scull.Device.Place.{
  IsGeometry, place_of, place_of-IsPlace, place_unique,
}
use linux_kernel_module_chea.Scull.Device.Cells.{cells, covers}

-- The byte at a position, if one has been stored there.
abbrev pub contents : Dev → ℕ → Cell
contents dev pos =
    let p = place_of dev.quantum dev.qset pos in cells dev.data' p.item p.s_pos p.q_pos

abbrev pub in_range : ℕ → ℕ → ℕ → Bool
in_range pos n j = leb pos j && ltb j (pos + n)

-- Two places are in one block and at the distance of their positions, or in two blocks.
covers-in_range_of :
    (at q : Place) (pos n j : ℕ)
    → (in_range pos n j ≡ true → q.item ≡ at.item)
    → (in_range pos n j ≡ true → q.s_pos ≡ at.s_pos)
    → (in_range pos n j ≡ true → q.q_pos ≡ at.q_pos + (j - pos))
    → (q.item ≡ at.item → q.s_pos ≡ at.s_pos → j + at.q_pos ≡ pos + q.q_pos)
    → covers at n q.item q.s_pos q.q_pos ≡ in_range pos n j
covers-in_range_of at q pos n j item s_pos q_pos same = elim (Bool-cases (in_range pos n j)) [
  | inl h ↦ let a = item h in let b = s_pos h in let c = q_pos h in ground arith
  | inr h ↦ ground arith
]

pub pick :
    {A : Type 0} {x y : A} (z : A) (a b : Bool)
    → a ≡ b
    → (b ≡ true → x ≡ y)
    → (if a then x else z) ≡ (if b then y else z)
pick z true true e h = h refl
pick z true false e h = cc
pick z false true e h = cc
pick z false false e h = refl

module _ {quantum qset : ℕ} (g : IsGeometry quantum qset) (pos n : ℕ)
    (fits : (place_of quantum qset pos).q_pos + n ≤ quantum) where
  -- Positions behind `pos` in its quantum.
  pub place_of-add :
      (j : ℕ)
      → in_range pos n j ≡ true
      → place_of quantum qset j ≡ record (place_of quantum qset pos) {
        q_pos = (place_of quantum qset pos).q_pos + (j - pos);
      }
  place_of-add j h =
      let at = place_of-IsPlace g pos in
      place_unique g j _ (record {
        splits = ground (arith, at.splits);
        in_set = at.in_set;
        in_quantum = ground arith;
      })

  same_block :
      (j : ℕ)
      → (place_of quantum qset j).item ≡ (place_of quantum qset pos).item
      → (place_of quantum qset j).s_pos ≡ (place_of quantum qset pos).s_pos
      → j + (place_of quantum qset pos).q_pos ≡ pos + (place_of quantum qset j).q_pos
  same_block j e f = omega (
    arith,
    (place_of-IsPlace g pos).splits,
    (place_of-IsPlace g j).splits,
    ap (λ (t : ℕ). t * (quantum * qset)) e,
    ap (λ (t : ℕ). t * quantum) f,
  )

  pub covered-offset :
      (j : ℕ)
      → in_range pos n j ≡ true
      → (place_of quantum qset j).q_pos - (place_of quantum qset pos).q_pos ≡ j - pos
  covered-offset j h = let e = ap (λ (p : Place). p.q_pos) (place_of-add j h) in omega (arith, e)

  -- The offsets that a write covers are those of the positions from `pos` to `pos + n - 1`.
  pub covers-in_range :
      (j : ℕ)
      → (let q = place_of quantum qset j in
          covers (place_of quantum qset pos) n q.item q.s_pos q.q_pos)
        ≡ in_range pos n j
  covers-in_range j =
      covers-in_range_of (place_of quantum qset pos) (place_of quantum qset j) pos n j
        (λ h. ap (λ (p : Place). p.item) (place_of-add j h))
        (λ h. ap (λ (p : Place). p.s_pos) (place_of-add j h))
        (λ h. ap (λ (p : Place). p.q_pos) (place_of-add j h)) (same_block j)
