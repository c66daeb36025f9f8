-- ===== src/Scull/Device/Defs.antt =====
-- The data of a bare scull device, `scull_trim`, `scull_follow`, and where a position lies.
use linux_kernel_module_chea.Base.{
  ℕ, zero, suc, ◌+◌, ◌*◌, ◌/◌, ◌%◌, ◌^◌, Bool, true, false, ◌&&◌, Option, none, some, List, [], ◌∷◌,
  ltb, if◌then◌else◌,
}
use linux_kernel_module_chea.Kernel.{Cell, Allocs, later}
use linux_kernel_module_chea.Scull.Params.{Params, int_max}

-- A quantum: a block of bytes.
abbrev pub Block : Type 0
Block = List Cell

-- `struct scull_qset`. `next` is the rest of the list that the set stands in; a null pointer is
-- `none`.
abbrev pub Qset : Type 0
Qset = Option (List (Option Block))

-- `struct scull_dev`. `data` is the list that starts at `dev->data`.
pub record Dev : Type 0 where
  pub data' : List Qset
  pub quantum : ℕ
  pub qset : ℕ
  pub size : ℕ

-- How many blocks `kfree` gives back for the pointers `data[i]`, for `i` from 0 to `n - 1`.
unfoldable pub free_blocks : ℕ → List (Option Block) → ℕ
free_blocks zero bs = 0
free_blocks (suc n) [] = 0
free_blocks (suc n) (none ∷ bs) = free_blocks n bs
free_blocks (suc n) (some b ∷ bs) = suc (free_blocks n bs)

-- The loop of `scull_trim`, with the number of objects that it frees.
unfoldable pub free_sets : ℕ → List Qset → ℕ
unfolding free_blocks
free_sets qset [] = 0
free_sets qset (none ∷ qs) = suc (free_sets qset qs)
free_sets qset (some bs ∷ qs) = free_blocks qset bs + suc (suc (free_sets qset qs))

-- `scull_trim`: the emptied device, and the number of objects given back.
unfoldable pub scull_trim : Params → Dev → Dev × ℕ
unfolding free_sets
scull_trim p dev = (
  record { data' = []; quantum = p.scull_quantum; qset = p.scull_qset; size = 0 },
  free_sets dev.qset dev.data',
)

-- The outcome of a walk: the list, extended where it was short, the allocation outcomes that are
-- left, and whether the set was reached (`false` where an allocation failed).
pub record Followed : Type 0 where
  pub sets : List Qset
  pub left : Allocs
  pub found : Bool

-- The loop of `scull_follow`, over what stands behind `qs`.
unfoldable pub follow_next : ℕ → List Qset → Allocs → Followed
follow_next zero rest a = record { sets = rest; left = a; found = true }
follow_next (suc n) [] a =
    let f = follow_next n [] (later a) in
    if a 0
    then record f { sets = none ∷ f.sets }
    else record { sets = []; left = later a; found = false }
follow_next (suc n) (q ∷ qs) a = let f = follow_next n qs a in record f { sets = q ∷ f.sets }

-- `scull_follow(dev, n)`: the first set is allocated explicitly.
unfoldable pub scull_follow : List Qset → ℕ → Allocs → Followed
unfolding follow_next
scull_follow [] n a =
    let f = follow_next n [] (later a) in
    if a 0
    then record f { sets = none ∷ f.sets }
    else record { sets = []; left = later a; found = false }
scull_follow (q ∷ qs) n a = let f = follow_next n qs a in record f { sets = q ∷ f.sets }

-- List item, index in the quantum set, and offset in the quantum.
pub record Place : Type 0 where
  pub item : ℕ
  pub s_pos : ℕ
  pub q_pos : ℕ

-- The arithmetic that `scull_read` and `scull_write` share. `none` stands for a division by zero, a
-- negative `quantum` or `qset`, a product that does not fit an `int`, or an `item` that is negative
-- when it is cut to an `int`.
unfoldable pub place : ℕ → ℕ → ℕ → Option Place
place quantum qset pos =
    let itemsize = quantum * qset in
    let item = pos / itemsize % 2 ^ 32 in
    let rest = pos % itemsize in
    if ltb 0 quantum && (ltb 0 qset && (ltb itemsize int_max && ltb item int_max))
    then some (record { item = item; s_pos = rest / quantum; q_pos = rest % quantum })
    else none
