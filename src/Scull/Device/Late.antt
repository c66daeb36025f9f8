-- ===== src/Scull/Device/Late.antt =====
-- `scull_read` and `scull_write` of kernel_modules/scull.c, of a call that waits for the lock: it has read
-- the geometry of the device before, and others may have changed the device since.
use linux_kernel_module_chea.Base.{
  ℕ, zero, suc, ◌+◌, ◌-◌, ◌≤◌, ◌<◌, ◌≡◌, refl, min, Bool, true, false, Option, none, some, List, [],
  ◌∷◌, ltb, leb, if◌then◌else◌, length, get_or, arith, All,
}
use linux_kernel_module_chea.Kernel.{Env, ok, err, undefined, restartsys}
use linux_kernel_module_chea.Scull.Device.Defs.{Block, Qset, Dev, Place, place}
use linux_kernel_module_chea.Scull.Device.Io.{Done, stop, clamp_to_size, read_at, write_at}
use linux_kernel_module_chea.Scull.Device.Shape.{IsBlock, IsQset, IsShaped}

-- Whether the set's array ends before the entry at a place, or its quantum before `n` bytes from
-- there on.
unfoldable pub outside : List Qset → Place → (n : ℕ) → Bool
outside sets at n = elim (get_or sets at.item none) [
  | none ↦ false
  | some bs ↦
      if leb (length bs) at.s_pos
      then true
      else elim (get_or bs at.s_pos none) [ none ↦ false | some b ↦ ltb (length b) (at.q_pos + n) ]
]

-- The device for the part under the lock, which goes by the local variables `quantum` and `qset`;
-- and the device behind it, whose own geometry stays.
abbrev pub with_locals : (quantum qset : ℕ) → Dev → Dev
with_locals quantum qset dev = record dev { quantum = quantum; qset = qset }

abbrev pub without_locals : Dev → Done → Done
without_locals dev r = record r { dev = record r.dev { quantum = dev.quantum; qset = dev.qset } }

-- From the place on. An access outside of the array or of the quantum, which only another geometry
-- than the device's leads to, has no meaning.
unfoldable pub read_locked : (quantum qset : ℕ) → Dev → Env → (count pos : ℕ) → Option Place → Done
unfolding outside read_at
read_locked quantum qset dev e count pos none = stop dev pos undefined
read_locked quantum qset dev e count pos (some at) =
    if outside dev.data' at (min count (quantum - at.q_pos))
    then stop dev pos undefined
    else without_locals dev (read_at (with_locals quantum qset dev) e count pos (some at))

unfoldable pub scull_read_late : (quantum qset : ℕ) → Dev → Env → (count pos : ℕ) → Done
unfolding read_locked place clamp_to_size
scull_read_late quantum qset dev e count pos =
    if e.interrupted
    then stop dev pos (err restartsys)
    else (if leb dev.size pos
        then stop dev pos (ok 0)
        else read_locked quantum qset dev e (clamp_to_size dev.size pos count) pos
            (place quantum qset pos))

unfoldable pub write_locked : (quantum qset : ℕ) → Dev → Env → (count pos : ℕ) → Option Place → Done
unfolding outside write_at
write_locked quantum qset dev e count pos none = stop dev pos undefined
write_locked quantum qset dev e count pos (some at) =
    if outside dev.data' at (min count (quantum - at.q_pos))
    then stop dev pos undefined
    else without_locals dev (write_at (with_locals quantum qset dev) e count pos (some at))

unfoldable pub scull_write_late : (quantum qset : ℕ) → Dev → Env → (count pos : ℕ) → Done
unfolding write_locked place
scull_write_late quantum qset dev e count pos =
    if e.interrupted
    then stop dev pos (err restartsys)
    else write_locked quantum qset dev e count pos (place quantum qset pos)

get_or-All :
    {A : Type 0} (P : A → Type 0) (xs : List A) (i : ℕ) (a : A) → P a → All P xs → P (get_or xs i a)
get_or-All P [] i a p h = p
get_or-All P (x ∷ xs) zero a p h = h.0
get_or-All P (x ∷ xs) (suc i) a p h = get_or-All P xs i a p h.1

outside_quantum :
    (quantum : ℕ) (o : Option Block) (k : ℕ)
    → IsBlock quantum o
    → k ≤ quantum
    → elim o [ none ↦ false | some b ↦ ltb (length b) k ] ≡ false
outside_quantum quantum none k is le = refl
outside_quantum quantum (some b) k is le = ground (arith, is, le)

-- On a device in shape, its own geometry leads to no access outside.
pub outside-IsShaped :
    (dev : Dev) (at : Place) (n : ℕ)
    → IsShaped dev
    → at.s_pos < dev.qset
    → at.q_pos + n ≤ dev.quantum
    → outside dev.data' at n ≡ false
unfolding outside
outside-IsShaped dev at n h s q =
    go (get_or dev.data' at.item none)
      (get_or-All (IsQset dev.quantum dev.qset) dev.data' at.item none tt h)
  where
    go :
        (o : Qset)
        → IsQset dev.quantum dev.qset o
        → elim o [
          | none ↦ false
          | some bs ↦ if leb (length bs) at.s_pos then true else elim (get_or bs at.s_pos none) [
            | none ↦ false
            | some b ↦ ltb (length b) (at.q_pos + n)
          ]
        ]
          ≡ false
    go none is = refl
    go (some bs) is =
        let inside : leb (length bs) at.s_pos ≡ false = ground (arith, is.0, s) in
        rw inside (
          outside_quantum dev.quantum (get_or bs at.s_pos none) (at.q_pos + n)
            (get_or-All (IsBlock dev.quantum) bs at.s_pos none tt is.1) q)
