-- ===== src/Scull/Device/Shape.antt =====
-- The shape of a bare device: the arrays have `qset` entries and the blocks `quantum` bytes.
use linux_kernel_module_chea.Base.{
  ℕ, zero, suc, ◌+◌, ◌≡◌, refl, none, some, Option, List, [], ◌∷◌, arith, length, All, get_or,
}
use linux_kernel_module_chea.Scull.Params.{Params}
use linux_kernel_module_chea.Scull.Device.Defs.{
  Block, Qset, Dev, scull_trim, free_blocks, free_sets,
}
use linux_kernel_module_chea.Scull.Device.Io.{block_at}

abbrev pub IsBlock : ℕ → Option Block → Type 0
IsBlock quantum none = Unit
IsBlock quantum (some b) = length b ≡ quantum

abbrev pub IsQset : ℕ → ℕ → Qset → Type 0
IsQset quantum qset none = Unit
IsQset quantum qset (some bs) = (length bs ≡ qset) × All (IsBlock quantum) bs

abbrev pub IsShaped : Dev → Type 0
IsShaped dev = All (IsQset dev.quantum dev.qset) dev.data'

-- An emptied device is in shape, whatever the parameters.
pub scull_trim-IsShaped : (p : Params) (dev : Dev) → IsShaped (scull_trim p dev).0
unfolding scull_trim
scull_trim-IsShaped p dev = tt

-- The number of objects that a device has been given: list items, arrays and blocks.
unfoldable pub blocks_held : List (Option Block) → ℕ
blocks_held [] = 0
blocks_held (none ∷ bs) = blocks_held bs
blocks_held (some b ∷ bs) = suc (blocks_held bs)

unfoldable pub objects_held : List Qset → ℕ
unfolding blocks_held
objects_held [] = 0
objects_held (none ∷ qs) = suc (objects_held qs)
objects_held (some bs ∷ qs) = blocks_held bs + suc (suc (objects_held qs))

free_blocks-blocks_held :
    (n : ℕ) (bs : List (Option Block)) → length bs ≡ n → free_blocks n bs ≡ blocks_held bs
unfolding free_blocks blocks_held
free_blocks-blocks_held zero [] h = refl
free_blocks-blocks_held zero (b ∷ bs) h = absurd (omega arith)
free_blocks-blocks_held (suc n) [] h = refl
free_blocks-blocks_held (suc n) (none ∷ bs) h = free_blocks-blocks_held n bs (omega arith)
free_blocks-blocks_held (suc n) (some b ∷ bs) h =
    omega (arith, free_blocks-blocks_held n bs (omega arith))

pub free_sets-objects_held :
    (quantum qset : ℕ) (qs : List Qset)
    → All (IsQset quantum qset) qs
    → free_sets qset qs ≡ objects_held qs
unfolding free_sets objects_held
free_sets-objects_held quantum qset [] h = refl
free_sets-objects_held quantum qset (none ∷ qs) h =
    omega (arith, free_sets-objects_held quantum qset qs h.1)
free_sets-objects_held quantum qset (some bs ∷ qs) h =
    omega (arith, free_blocks-blocks_held qset bs h.0.0, free_sets-objects_held quantum qset qs h.1)

-- `scull_trim` of a device in shape empties it, takes over the parameters, and gives back every
-- object that the device held: list items, arrays and quanta.
pub scull_trim_frees_all :
    (p : Params) (dev : Dev)
    → IsShaped dev
    → (scull_trim p dev ≡ (
      record { data' = []; quantum = p.scull_quantum; qset = p.scull_qset; size = 0 },
      objects_held dev.data',
    ))
unfolding scull_trim
scull_trim_frees_all p dev h = rw (free_sets-objects_held dev.quantum dev.qset dev.data' h)

-- A block of a device in shape has `quantum` bytes.
pub IsShaped-IsBlock :
    (quantum qset : ℕ) (sets : List Qset) (i s : ℕ)
    → All (IsQset quantum qset) sets
    → IsBlock quantum (block_at sets i s)
unfolding block_at
IsShaped-IsBlock quantum qset [] i s h = tt
IsShaped-IsBlock quantum qset (none ∷ qs) zero s h = tt
IsShaped-IsBlock quantum qset (some bs ∷ qs) zero s h = go bs s h.0.1
  where
    go :
        (xs : List (Option Block)) (j : ℕ)
        → All (IsBlock quantum) xs
        → IsBlock quantum (get_or xs j none)
    go [] j k = tt
    go (x ∷ xs) zero k = k.0
    go (x ∷ xs) (suc j) k = go xs j k.1
IsShaped-IsBlock quantum qset (q ∷ qs) (suc i) s h = IsShaped-IsBlock quantum qset qs i s h.1
