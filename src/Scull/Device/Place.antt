-- ===== src/Scull/Device/Place.antt =====
-- Where a position lies: the list item, the index in the quantum set, and the offset.
use linux_kernel_module_chea.Base.{
  ℕ, ◌+◌, ◌*◌, ◌/◌, ◌%◌, ◌^◌, ◌<◌, ◌≡◌, some, arith, ap, ◌∙◌, div_unique, mod_unique, index-lt,
}
use native.Mathlib.Nat.{div-add-mod', div-lt_iff_lt-mul, mod-lt}
use linux_kernel_module_chea.Scull.Params.{int_max}
use linux_kernel_module_chea.Scull.Device.Defs.{Place, place}

-- `quantum` and `qset` are positive, their product fits an `int`.
pub record IsGeometry (quantum qset : ℕ) : Type 0 where
  pub quantum_pos : 0 < quantum
  pub qset_pos : 0 < qset
  pub itemsize_int : quantum * qset < int_max

-- The set that `pos` lies in can be counted by an `int`.
abbrev pub InReach : ℕ → ℕ → ℕ → Type 0
InReach quantum qset pos = pos / (quantum * qset) < int_max

-- `at` is the one place with `pos = (item * qset + s_pos) * quantum + q_pos`.
pub record IsPlace (quantum qset pos : ℕ) (at : Place) : Type 0 where
  pub splits : at.item * (quantum * qset) + (at.s_pos * quantum + at.q_pos) ≡ pos
  pub in_set : at.s_pos < qset
  pub in_quantum : at.q_pos < quantum

module _ (quantum qset : ℕ) where
  abbrev pub place_of : ℕ → Place
  place_of pos = record {
    item = pos / (quantum * qset);
    s_pos = pos % (quantum * qset) / quantum;
    q_pos = pos % (quantum * qset) % quantum;
  }

module _ {quantum qset : ℕ} (g : IsGeometry quantum qset) where
  pub itemsize_pos : 0 < quantum * qset
  itemsize_pos = let a = g.quantum_pos in let b = g.qset_pos in grind arith

  -- The code computes the place by quotients and remainders.
  pub place-place_of :
      (pos : ℕ)
      → InReach quantum qset pos
      → place quantum qset pos ≡ some (place_of quantum qset pos)
  unfolding place
  place-place_of pos h =
      let r : pos / (quantum * qset) % 2 ^ 32 ≡ pos / (quantum * qset) = omega arith in
      ground (arith, r, g.quantum_pos, g.qset_pos, g.itemsize_int)

  -- Every position has a place.
  pub place_of-IsPlace : (pos : ℕ) → IsPlace quantum qset pos (place_of quantum qset pos)
  place_of-IsPlace pos =
      let rest = pos % (quantum * qset) in
      let small : rest < quantum * qset = mod-lt pos itemsize_pos in
      record {
        splits = omega (arith, div-add-mod' pos (quantum * qset), div-add-mod' rest quantum);
        in_set = (div-lt_iff_lt-mul g.quantum_pos).1 (omega (arith, small));
        in_quantum = mod-lt rest g.quantum_pos;
      }

  -- And only one.
  pub place_unique :
      (pos : ℕ) (at : Place) → IsPlace quantum qset pos at → place_of quantum qset pos ≡ at
  place_unique pos at h =
      let open_rest = at.s_pos * quantum + at.q_pos in
      let small : open_rest < quantum * qset =
        index-lt at.s_pos at.q_pos qset quantum h.in_set h.in_quantum in
      let rest : pos % (quantum * qset) ≡ open_rest =
        rw (← h.splits) (mod_unique at.item (quantum * qset) open_rest small) in
      let item : pos / (quantum * qset) ≡ at.item =
        rw (← h.splits) (div_unique at.item (quantum * qset) open_rest small) in
      let s : open_rest / quantum ≡ at.s_pos = div_unique at.s_pos quantum at.q_pos h.in_quantum in
      let o : open_rest % quantum ≡ at.q_pos = mod_unique at.s_pos quantum at.q_pos h.in_quantum in
      λ i. record {
        item = item i;
        s_pos = (ap (λ (t : ℕ). t / quantum) rest ∙ s) i;
        q_pos = (ap (λ (t : ℕ). t % quantum) rest ∙ o) i;
      }
