-- ===== src/Scull/Device/Wrote.antt =====
-- The parts of `scull_write` behind the walk to the list item, each with its outcome.
use linux_kernel_module_chea.Base.{
  ℕ, ◌-◌, ◌<◌, ◌≡◌, refl, min, Bool, true, false, none, some, Option, List, arith, length,
  get_elem?, get_or, set, replicate, overwrite, map, All-set, All-replicate, length-set,
  All-get_elem?, length-replicate, length-overwrite, get_or-set, get_or-replicate, get_or-overwrite,
  if◌then◌else◌, Option-cases, Bool-cases, some_inj, ◌∙◌, inl, inr,
}
use mathlib.Core.Path.{subst, sym}
use linux_kernel_module_chea.Kernel.{Allocs, FillsBuffer, Env}
use linux_kernel_module_chea.Scull.Device.Defs.{Block, Qset, Dev, Place}
use linux_kernel_module_chea.Scull.Device.Io.{
  block_at, ensure_array, ensure_block, write_block, write_array, write_set,
}
use linux_kernel_module_chea.Scull.Device.Shape.{IsBlock, IsQset, IsShaped, IsShaped-IsBlock}
use linux_kernel_module_chea.Scull.Device.Cells.{
  cells, cell_of, Stored, Wrote, no_memory, faulted, wrote, array_of, block_at-array, block_at-set,
  Wrote_from, length-bytes, dev_with, Stands, dev_with-Kept, dev_with-SameCells, dev_with-Stands,
}

-- What an allocation hands out is what was asked for.
granted :
    {A : Type 0} (P : A → Type 0) (g : Bool) (x : A) {y : A}
    → P x
    → (if g then some x else none) ≡ some y
    → P y
granted P true x p e = subst P (some_inj e) p
granted P false x p e = cc

-- `ensure_block` gives the block, or a fresh one that holds nothing.
abbrev IsBlockFor : ℕ → Option Block → Block → Type 0
IsBlockFor quantum o b = (length b ≡ quantum) × ((k : ℕ) → get_or b k none ≡ cell_of o k)

ensure_block_lem :
    (quantum : ℕ) (o : Option Block) (a : Allocs) {b : Block}
    → IsBlock quantum o
    → ensure_block quantum o a ≡ some b
    → IsBlockFor quantum o b
unfolding ensure_block
ensure_block_lem quantum (some c) a h e =
    subst (IsBlockFor quantum (some c)) (some_inj e) (h, λ k. refl)
ensure_block_lem quantum none a h e =
    granted (IsBlockFor quantum none) (a 0) (replicate quantum none)
      (length-replicate quantum none, λ k. get_or-replicate quantum k none) e

-- `ensure_array` gives the array, or a fresh one that is empty.
abbrev IsArrayFor : ℕ → ℕ → Qset → List (Option Block) → Type 0
IsArrayFor quantum qset q bs =
    IsQset quantum qset (some bs) × ((s : ℕ) → get_or bs s none ≡ get_or (array_of q) s none)

ensure_array_lem :
    (quantum qset : ℕ) (q : Qset) (a : Allocs) {bs : List (Option Block)}
    → IsQset quantum qset q
    → (ensure_array qset q a).0 ≡ some bs
    → IsArrayFor quantum qset q bs
unfolding ensure_array
ensure_array_lem quantum qset (some c) a h e =
    subst (IsArrayFor quantum qset (some c)) (some_inj e) (h, λ s. refl)
ensure_array_lem quantum qset none a h e =
    granted (IsArrayFor quantum qset none) (a 0) (replicate qset none)
      (
        (length-replicate qset none, All-replicate (IsBlock quantum) qset none tt),
        λ s. get_or-replicate qset s none,
      )
      e

-- The number of bytes that a write at `at` takes, and the bytes.
abbrev pub taken : Dev → Place → ℕ → ℕ
taken dev at count = min count (dev.quantum - at.q_pos)

abbrev pub stored : Dev → Env → Place → ℕ → List ℕ
stored dev e at count = (e.user.copy_from_user (taken dev at count)).0

module _ (dev : Dev) (e : Env) (at : Place) (count pos : ℕ) (fill : FillsBuffer e.user)
    (shaped : IsShaped dev) (item : at.item < length dev.data') (in_set : at.s_pos < dev.qset)
    (in_quantum : at.q_pos < dev.quantum) where
  write_block-Stored :
      (bs : List (Option Block)) (b : Block)
      → Stands dev at.item bs
      → length bs ≡ dev.qset
      → length b ≡ dev.quantum
      → ((k : ℕ) → get_or b k none ≡ cells dev.data' at.item at.s_pos k)
      → Stored dev at (taken dev at count) (stored dev e at count) (
          dev_with dev at.item
            (set bs at.s_pos (some (overwrite b at.q_pos (map some (stored dev e at count))))))
  write_block-Stored bs b stands len len_b same i s k =
      rw
        (
          block_at-set dev.data' at.item _ i s item,
          get_or-set bs at.s_pos (some (overwrite b at.q_pos (map some (stored dev e at count)))) s
              none (omega arith),
        )
        (ground (
          arith,
          get_or-overwrite b at.q_pos (map some (stored dev e at count)) k none,
          same k,
          stands s,
          length-bytes (stored dev e at count),
          fill.fills (taken dev at count),
        ))

  write_block-Wrote :
      (bs : List (Option Block)) (b : Block)
      → Stands dev at.item bs
      → IsQset dev.quantum dev.qset (some bs)
      → length b ≡ dev.quantum
      → ((k : ℕ) → get_or b k none ≡ cells dev.data' at.item at.s_pos k)
      → Wrote dev at pos
          (taken dev at count)
          (stored dev e at count)
          (write_block dev e.user at count pos bs b)
  unfolding write_block
  write_block-Wrote bs b stands h len same =
      let b' = overwrite b at.q_pos (map some (stored dev e at count)) in
      let len' : length b' ≡ dev.quantum =
        length-overwrite b at.q_pos (map some (stored dev e at count)) ∙ len in
      let bs' = set bs at.s_pos (some b') in
      let kept = dev_with-Kept dev at.item item shaped bs' (
        length-set bs at.s_pos (some b') ∙ h.0,
        All-set (IsBlock dev.quantum) bs at.s_pos (some b') h.1 len',
      ) in
      let new = write_block-Stored bs b stands h.0 len same in
      elim (Bool-cases (e.user.copy_from_user (taken dev at count)).1) [
        | inl failed ↦ rw failed (faulted kept new)
        | inr done ↦ rw done (wrote kept new)
      ]

module _ (dev : Dev) (e : Env) (at : Place) (count pos : ℕ) (fill : FillsBuffer e.user)
    (shaped : IsShaped dev) (item : at.item < length dev.data') (in_set : at.s_pos < dev.qset)
    (in_quantum : at.q_pos < dev.quantum) where
  write_array-Wrote :
      (bs : List (Option Block)) (a : Allocs)
      → Stands dev at.item bs
      → IsQset dev.quantum dev.qset (some bs)
      → Wrote dev at pos
          (taken dev at count)
          (stored dev e at count)
          (write_array dev e at count pos bs a)
  unfolding write_array
  write_array-Wrote bs a stands h =
      let dev' = dev_with dev at.item bs in
      let kept = dev_with-Kept dev at.item item shaped bs h in
      let same = dev_with-SameCells dev at.item item shaped bs stands in
      let o = block_at dev'.data' at.item at.s_pos in
      let o-IsBlock =
        IsShaped-IsBlock dev.quantum dev.qset dev'.data' at.item at.s_pos kept.shaped in
      elim (Option-cases (ensure_block dev.quantum o a)) [
        | inl e0 ↦ rw (e0, write_array) (no_memory kept same)
        | inr (b, e0) ↦
            let fresh = ensure_block_lem dev.quantum o a o-IsBlock e0 in
            rw (e0, write_array)
              (Wrote_from kept same (
                write_block-Wrote dev' e at count pos fill kept.shaped
                  (omega (arith, length-set dev.data' at.item (some bs))) in_set in_quantum bs b
                  (dev_with-Stands dev at.item item shaped bs) h fresh.0 fresh.1))
      ]

  pub write_set-Wrote :
      (q : Qset) (a : Allocs)
      → get_elem? dev.data' at.item ≡ some q
      → Wrote dev at pos
          (taken dev at count)
          (stored dev e at count)
          (write_set dev e at count pos q a)
  unfolding write_set
  write_set-Wrote q a is = elim (Option-cases (ensure_array dev.qset q a).0) [
    | inl e0 ↦
        rw (e0, write_set)
          (no_memory (record { quantum = refl; qset = refl; size = refl; shaped = shaped })
            (λ i s k. refl))
    | inr (bs, e0) ↦
        let fresh =
          ensure_array_lem dev.quantum dev.qset q a
            (All-get_elem? (IsQset dev.quantum dev.qset) dev.data' at.item shaped is) e0 in
        rw (e0, write_set)
          (write_array-Wrote bs _ (λ s. fresh.1 s ∙ sym (block_at-array dev.data' at.item s q is))
            fresh.0)
  ]
