-- ===== src/Scull/Device/Cells.antt =====
-- What the blocks of a bare device hold, what a write may change, and steps that change no byte.
use linux_kernel_module_chea.Base.{
  ℕ, zero, suc, ◌+◌, ◌-◌, ◌<◌, ◌≡◌, refl, Bool, ◌&&◌, none, some, Option, List, [], ◌∷◌, arith,
  length, get_elem?, get_or, set, map, All-set, length-map, get_or-set, ltb, leb, ◌==◌,
  if◌then◌else◌, some_inj, ap, ◌∙◌,
}
use mathlib.Core.Path.{subst}
use linux_kernel_module_chea.Kernel.{Cell, err, ok, nomem, fault}
use linux_kernel_module_chea.Scull.Device.Defs.{Block, Qset, Dev, Place}
use linux_kernel_module_chea.Scull.Device.Io.{block_at, Done, stop}
use linux_kernel_module_chea.Scull.Device.Shape.{IsQset, IsShaped}

-- The byte at an offset of a block; nothing in a hole.
abbrev pub cell_of : Option Block → ℕ → Cell
cell_of none k = none
cell_of (some b) k = get_or b k none

abbrev pub cells : List Qset → ℕ → ℕ → ℕ → Cell
cells sets i s k = cell_of (block_at sets i s) k

pub block_at-set :
    (sets : List Qset) (i : ℕ) (bs : List (Option Block)) (j s : ℕ)
    → i < length sets
    → block_at (set sets i (some bs)) j s ≡ (if j == i then get_or bs s none else block_at sets j s)
unfolding block_at
block_at-set sets i bs j s h = rw (get_or-set sets i (some bs) j none h, block_at) (ground arith)

-- The offsets that a write of `n` bytes at `at` covers.
abbrev pub covers : Place → ℕ → ℕ → ℕ → ℕ → Bool
covers at n i s k = (i == at.item && s == at.s_pos) && (leb at.q_pos k && ltb k (at.q_pos + n))

-- `d` holds what `dev` holds, but for `bytes` at the place `at`.
abbrev pub Stored : Dev → Place → ℕ → List ℕ → Dev → Type 0
Stored dev at n bytes d =
    (i s k : ℕ)
    → cells d.data' i s k ≡ (
        if covers at n i s k
        then get_or (map some bytes) (k - at.q_pos) none
        else cells dev.data' i s k)

abbrev pub SameCells : Dev → Dev → Type 0
SameCells dev d = (i s k : ℕ) → cells d.data' i s k ≡ cells dev.data' i s k

-- `d` is in shape and has the settings and the size of `dev`.
pub record Kept (dev d : Dev) : Type 0 where
  pub quantum : d.quantum ≡ dev.quantum
  pub qset : d.qset ≡ dev.qset
  pub size : d.size ≡ dev.size
  pub shaped : IsShaped d

-- The outcome of a write from the point where the list item is reached.
pub data Wrote (dev : Dev) (at : Place) (pos n : ℕ) (bytes : List ℕ) : Done → Type 0 where
  no_memory :
      {d : Dev} → Kept dev d → SameCells dev d → Wrote dev at pos n bytes (stop d pos (err nomem))
  faulted :
      {d : Dev}
      → Kept dev d
      → Stored dev at n bytes d
      → Wrote dev at pos n bytes (stop d pos (err fault))
  wrote :
      {d : Dev}
      → Kept dev d
      → Stored dev at n bytes d
      → Wrote dev at pos n bytes (record {
        dev = record d { size = if ltb dev.size (pos + n) then pos + n else dev.size };
        f_pos = pos + n;
        ret = ok n;
        out = [];
      })

Kept-trans : {a b c : Dev} → Kept a b → Kept b c → Kept a c
Kept-trans p q = record {
  quantum = q.quantum ∙ p.quantum;
  qset = q.qset ∙ p.qset;
  size = q.size ∙ p.size;
  shaped = q.shaped;
}

abbrev pub array_of : Qset → List (Option Block)
array_of none = []
array_of (some bs) = bs

pub block_at-array :
    (sets : List Qset) (i s : ℕ) (q : Qset)
    → get_elem? sets i ≡ some q
    → block_at sets i s ≡ get_or (array_of q) s none
unfolding block_at
block_at-array [] i s q e = cc
block_at-array (none ∷ qs) zero s q e =
    subst (λ (r : Qset). none ≡ get_or (array_of r) s none) (some_inj e) refl
block_at-array (some bs ∷ qs) zero s q e =
    subst (λ (r : Qset). get_or bs s none ≡ get_or (array_of r) s none) (some_inj e) refl
block_at-array (p ∷ qs) (suc i) s q e = block_at-array qs i s q e

-- A write behind a step that changes no byte.
pub Wrote_from :
    {dev dev' : Dev} {at : Place} {pos n : ℕ} {bytes : List ℕ} {r : Done}
    → Kept dev dev'
    → SameCells dev dev'
    → Wrote dev' at pos n bytes r
    → Wrote dev at pos n bytes r
Wrote_from kept same (no_memory k s) = no_memory (Kept-trans kept k) (λ i j o. s i j o ∙ same i j o)
Wrote_from {at} {n} {bytes} kept same (faulted k s) = faulted (Kept-trans kept k) (λ i j o.
    s i j o
    ∙ ap
        (λ (c : Cell). if covers at n i j o then get_or (map some bytes) (o - at.q_pos) none else c)
        (same i j o))
Wrote_from {at} {pos} {n} {bytes} kept same (wrote k s) = rw kept.size (
    wrote (Kept-trans kept k) (λ i j o.
      s i j o
      ∙ ap
          (λ (c : Cell).
            if covers at n i j o then get_or (map some bytes) (o - at.q_pos) none else c)
          (same i j o)))

pub length-bytes : (bytes : List ℕ) → length {A = Cell} (map some bytes) ≡ length bytes
length-bytes bytes = length-map bytes some

-- A device whose item `i` has the array `bs`.
abbrev pub dev_with : Dev → ℕ → List (Option Block) → Dev
dev_with dev i bs = record dev { data' = set dev.data' i (some bs) }

-- `bs` holds the blocks that the item `i` holds, or none where the item has no array.
abbrev pub Stands : Dev → ℕ → List (Option Block) → Type 0
Stands dev i bs = (s : ℕ) → get_or bs s none ≡ block_at dev.data' i s

module _ (dev : Dev) (i : ℕ) (item : i < length dev.data') (shaped : IsShaped dev) where
  pub dev_with-Kept :
      (bs : List (Option Block))
      → IsQset dev.quantum dev.qset (some bs)
      → Kept dev (dev_with dev i bs)
  dev_with-Kept bs h = record {
    quantum = refl;
    qset = refl;
    size = refl;
    shaped = All-set (IsQset dev.quantum dev.qset) dev.data' i (some bs) shaped h;
  }

  pub dev_with-SameCells :
      (bs : List (Option Block)) → Stands dev i bs → SameCells dev (dev_with dev i bs)
  dev_with-SameCells bs h j s k = rw (block_at-set dev.data' i bs j s item) (ground (arith, h s))

  pub dev_with-Stands : (bs : List (Option Block)) → Stands (dev_with dev i bs) i bs
  dev_with-Stands bs s = rw (block_at-set dev.data' i bs i s item) (ground arith)
