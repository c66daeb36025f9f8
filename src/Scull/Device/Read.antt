-- ===== src/Scull/Device/Read.antt =====
-- `scull_read` against the bytes that the device holds at each position.
use linux_kernel_module_chea.Base.{
  ℕ, zero, suc, ◌+◌, ◌-◌, ◌%◌, ◌^◌, ◌≤◌, ◌<◌, ◌≡◌, ◌⊎◌, refl, min, Option, none, some, List, [],
  ◌∷◌, arith, length, get_or, take, drop, length-take, length-drop, get_or-take, get_or-drop,
  get_or_beyond, leb, Bool-cases, leb→le, list_ext_or, replicate, length-replicate,
  get_or-replicate, inl, inr, ap, ◌∙◌, sym,
}
use mathlib.Core.Path.{subst}
use linux_kernel_module_chea.Kernel.{Cell, Env, err, ok, fault, restartsys}
use linux_kernel_module_chea.Scull.Device.Defs.{Dev, Qset, Block, Place, scull_follow}
use linux_kernel_module_chea.Scull.Device.Io.{
  Done, stop, block_at, clamp_to_size, read_block, read_at, scull_read,
}
use linux_kernel_module_chea.Scull.Device.Shape.{IsShaped, IsQset, IsBlock, IsShaped-IsBlock}
use linux_kernel_module_chea.Scull.Device.Follow.{
  scull_follow-All, scull_follow-block_at, scull_follow-lost,
}
use linux_kernel_module_chea.Scull.Device.Place.{IsGeometry, InReach, place_of, place-place_of}
use linux_kernel_module_chea.Scull.Device.Cells.{cells, cell_of}
use linux_kernel_module_chea.Scull.Device.Positions.{contents, place_of-add}

-- The device holds the same bytes, has the same size, and is in shape.
pub record SameContents (dev d : Dev) : Type 0 where
  pub same : (j : ℕ) → contents d j ≡ contents dev j
  pub size : d.size ≡ dev.size
  pub shaped : IsShaped d

-- What a read can return at most: up to the end of the data and of the quantum.
abbrev pub readable : Dev → ℕ → ℕ → ℕ
readable dev count pos =
    min (min count (dev.size - pos)) (dev.quantum - (place_of dev.quantum dev.qset pos).q_pos)

-- The `n` bytes from `pos` on.
abbrev pub cells_from : Dev → ℕ → ℕ → List Cell
cells_from dev pos zero = []
cells_from dev pos (suc n) = contents dev pos ∷ cells_from dev (pos + 1) n

pub length-cells_from : (dev : Dev) (pos n : ℕ) → length (cells_from dev pos n) ≡ n
length-cells_from dev pos zero = refl
length-cells_from dev pos (suc n) = ap suc (length-cells_from dev (pos + 1) n)

pub get_or-cells_from :
    (dev : Dev) (pos n k : ℕ) (d : Cell)
    → k < n
    → get_or (cells_from dev pos n) k d ≡ contents dev (pos + k)
get_or-cells_from dev pos zero k d h = absurd (omega arith)
get_or-cells_from dev pos (suc n) zero d h = ap (contents dev) {x = pos} {y = pos + 0} (omega arith)
get_or-cells_from dev pos (suc n) (suc k) d h =
    get_or-cells_from dev (pos + 1) n k d (omega arith)
    ∙ ap (contents dev) {x = pos + 1 + k} {y = pos + suc k} (omega arith)

-- A list that holds the bytes from `pos` on.
pub eq-cells_from :
    (dev : Dev) (pos n : ℕ) (xs : List Cell)
    → length xs ≡ n
    → ((k : ℕ) → k < n → get_or xs k none ≡ contents dev (pos + k))
    → xs ≡ cells_from dev pos n
eq-cells_from dev pos n xs len h =
    list_ext_or xs (cells_from dev pos n) none (len ∙ sym (length-cells_from dev pos n))
      (λ k lt. h k (omega arith) ∙ sym (get_or-cells_from dev pos n k none (omega arith)))

-- The outcome of a read that returns `n`: nothing of the device has changed, and the bytes are those
-- that it holds. Less than what is readable is returned only at the end of the data and where
-- nothing has been stored in the range, and then it is nothing.
pub record ReadsBack (dev : Dev) (count pos n : ℕ) (r : Done) : Type 0 where
  pub unchanged : SameContents dev r.dev
  pub f_pos : r.f_pos ≡ pos + n
  pub amount :
      (n ≡ readable dev count pos)
      ⊎ ((n ≡ 0)
          × ((dev.size ≤ pos)
              ⊎ (cells_from dev pos (readable dev count pos)
                  ≡ replicate (readable dev count pos) none)))
  pub bytes : r.out ≡ cells_from dev pos n

-- The outcomes of a read.
pub data Reads (dev : Dev) (count pos : ℕ) : Done → Type 0 where
  returned : {n : ℕ} {r : Done} → r.ret ≡ ok n → ReadsBack dev count pos n r → Reads dev count pos r
  failed : {d : Dev} → SameContents dev d → Reads dev count pos (stop d pos (err fault))
  late_read : {d : Dev} → SameContents dev d → Reads dev count pos (stop d pos (err restartsys))

block_at_beyond : (sets : List Qset) (i s : ℕ) → length sets ≤ i → block_at sets i s ≡ none
unfolding block_at
block_at_beyond sets i s h = rw (get_or_beyond sets i none h, block_at)

-- The test against the end of the data.
clamp_lem :
    (size pos count : ℕ)
    → pos + count < 2 ^ 64
    → pos < size
    → clamp_to_size size pos count ≡ min count (size - pos)
unfolding clamp_to_size
clamp_lem size pos count small inside =
    let e : (pos + count) % 2 ^ 64 ≡ pos + count = omega arith in ground (arith, e)

module _ (dev : Dev) (e : Env) (pos : ℕ) (g : IsGeometry dev.quantum dev.qset)
    (shaped : IsShaped dev) where
  abbrev at : Place
  at = place_of dev.quantum dev.qset pos

  abbrev walked : Dev
  walked = record dev { data' = (scull_follow dev.data' at.item e.allocs).sets }

  walked-SameContents : SameContents dev walked
  walked-SameContents = record {
    same = λ j.
        ap (λ (o : _). cell_of o (place_of dev.quantum dev.qset j).q_pos)
          (scull_follow-block_at dev.data' at.item e.allocs _ _);
    size = refl;
    shaped = scull_follow-All (IsQset dev.quantum dev.qset) tt dev.data' at.item e.allocs shaped;
  }

  -- The bytes behind `pos` in its quantum stand in one block.
  contents-add :
      (k : ℕ)
      → at.q_pos + k < dev.quantum
      → contents dev (pos + k) ≡ cell_of (block_at dev.data' at.item at.s_pos) (at.q_pos + k)
  contents-add k h =
      ap (λ (p : Place). cells dev.data' p.item p.s_pos p.q_pos)
        (place_of-add g pos (suc k) (omega arith) (pos + k) (ground arith))
      ∙ ap (λ (t : ℕ). cells dev.data' at.item at.s_pos (at.q_pos + t)) {x = pos + k - pos} {y = k}
          (omega arith)

  -- A hole where the block would be.
  hole :
      (count : ℕ)
      → block_at dev.data' at.item at.s_pos ≡ none
      → cells_from dev pos (readable dev count pos) ≡ replicate (readable dev count pos) none
  hole count e0 =
      let n = readable dev count pos in
      sym (
        eq-cells_from dev pos n (replicate n none) (length-replicate n none) (λ k h.
          get_or-replicate n k none
          ∙ sym (
              contents-add k (omega arith)
              ∙ ap (λ (o : Option Block). cell_of o (at.q_pos + k)) e0)))

  read_block-Reads :
      (count : ℕ)
      → pos < dev.size
      → (o : Option Block) → block_at dev.data' at.item at.s_pos ≡ o
      → Reads dev count pos (read_block walked e.user at (min count (dev.size - pos)) pos o)
  unfolding read_block
  read_block-Reads count inside none e0 = returned refl (record {
    unchanged = walked-SameContents;
    f_pos = omega arith;
    amount = inr (refl, inr (hole count e0));
    bytes = refl;
  })
  read_block-Reads count inside (some b) e0 =
      let n = readable dev count pos in
      let bytes = take n (drop at.q_pos b) in
      let len : length b ≡ dev.quantum =
        subst (IsBlock dev.quantum) e0
          (IsShaped-IsBlock dev.quantum dev.qset dev.data' at.item at.s_pos shaped) in
      elim (Bool-cases (e.user.copy_to_user bytes)) [
        | inl bad ↦ rw bad (failed walked-SameContents)
        | inr good ↦ rw good (
            returned refl (record {
              unchanged = walked-SameContents;
              f_pos = refl;
              amount = inl refl;
              bytes =
                  eq-cells_from dev pos n bytes
                    (omega (arith, length-take n (drop at.q_pos b), length-drop at.q_pos b))
                    (λ k h.
                      get_or-take n (drop at.q_pos b) k none h
                      ∙ get_or-drop at.q_pos b k none
                      ∙ sym (
                          contents-add k (omega arith)
                          ∙ ap (λ (o : Option Block). cell_of o (at.q_pos + k)) e0));
            }))
      ]

  read_at-Reads :
      (count : ℕ)
      → pos < dev.size
      → Reads dev count pos (read_at dev e (min count (dev.size - pos)) pos (some at))
  unfolding read_at
  read_at-Reads count inside =
      let f = scull_follow dev.data' at.item e.allocs in
      elim (Bool-cases f.found) [
        | inl found ↦
            rw (found, read_at)
              (rw (scull_follow-block_at dev.data' at.item e.allocs at.item at.s_pos)
                (read_block-Reads count inside (block_at dev.data' at.item at.s_pos) refl))
        | inr lost ↦
            rw (lost, read_at)
              (returned refl (record {
                unchanged = walked-SameContents;
                f_pos = omega arith;
                amount = inr (
                  refl,
                  inr (
                      hole count (
                        sym (scull_follow-block_at dev.data' at.item e.allocs at.item at.s_pos)
                        ∙ block_at_beyond f.sets at.item at.s_pos
                            (omega (arith, scull_follow-lost dev.data' at.item e.allocs lost)))),
                );
                bytes = refl;
              }))
      ]

-- The outcome of any read of a device in shape, with a positive geometry whose product fits an
-- `int`, at a position whose list item an `int` can count and with an end that fits a `size_t`: it
-- returns the bytes that the device holds there, or fails with `fault` or `restartsys`. It never
-- changes a byte, the size or the shape. It returns nothing only at the end of the data, where
-- nothing was asked for, or where nothing has been stored in the range.
pub scull_read-Reads :
    (dev : Dev) (e : Env) (count pos : ℕ)
    → IsGeometry dev.quantum dev.qset
    → InReach dev.quantum dev.qset pos
    → IsShaped dev
    → pos + count < 2 ^ 64
    → Reads dev count pos (scull_read dev e count pos)
unfolding scull_read
scull_read-Reads dev e count pos g reach shaped small = elim (Bool-cases e.interrupted) [
  | inl late ↦ rw late (late_read (record { same = λ j. refl; size = refl; shaped = shaped }))
  | inr calm ↦ rw calm (elim (Bool-cases (leb dev.size pos)) [
    | inl past ↦ rw past (
        returned refl (record {
          unchanged = record { same = λ j. refl; size = refl; shaped = shaped };
          f_pos = omega arith;
          amount = inr (refl, inl (leb→le _ _ past));
          bytes = refl;
        }))
    | inr inside ↦
        rw (inside, place-place_of g pos reach, clamp_lem dev.size pos count small (ground arith))
          (read_at-Reads dev e pos g shaped count (ground arith))
  ])
]
