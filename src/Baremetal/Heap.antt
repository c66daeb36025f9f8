-- ===== src/Baremetal/Heap.antt =====
-- The blocks that `_sbrk` gives out.
use native.Mathlib.Nat.{mod-eq_of_lt}
use linux_kernel_module_chea.Scull.Params.{int_max}
use linux_kernel_module_chea.Base.{
  ℕ, ◌+◌, ◌%◌, ◌^◌, All, ◌≤◌, ◌<◌, ◌≡◌, refl, true, false, List, [], ◌∷◌, ◌==◌, ltb, if◌then◌else◌,
  arith, Bool-cases, inl, inr,
}
use linux_kernel_module_chea.Baremetal.{Layout, or_low, sbrk}

-- A block: its address and its size.
abbrev pub Granted : Type 0
Granted = List (ℕ × ℕ)

-- The blocks of a history of calls that are not refused, and `heap_end` after it.
unfoldable pub grants : Layout → List ℕ → ℕ → Granted × ℕ
unfolding sbrk
grants l [] heap_end = ([], heap_end)
grants l (incr ∷ incrs) heap_end =
    let (end, result) = sbrk l incr heap_end in
    let (bs, last) = grants l incrs end in (if result == 0 then bs else (result, incr) ∷ bs, last)

-- Blocks that lie without gaps between two addresses, in order.
abbrev pub Adjoin : (from : ℕ) → Granted → (to : ℕ) → Type 0
Adjoin from [] to = from ≡ to
Adjoin from (b ∷ bs) to = (b.0 ≡ from) × Adjoin (b.0 + b.1) bs to

or_low_again : (l : Layout) (a : ℕ) → 0 < a → or_low l a ≡ a
or_low_again l a h = let no : a == 0 ≡ false = ground arith in rw no refl

-- The sum of the call is exact.
abbrev IsExact : Layout → (incr heap_end : ℕ) → Type 0
IsExact l incr heap_end = (or_low l heap_end + incr) % 2 ^ l.address_bits ≡ or_low l heap_end + incr

sbrk_refused :
    (l : Layout) (incr heap_end : ℕ)
    → IsExact l incr heap_end
    → ltb l.lkmc_heap_top (or_low l heap_end + incr) ≡ true
    → sbrk l incr heap_end ≡ (or_low l heap_end, 0)
unfolding sbrk
sbrk_refused l incr heap_end exact over = rw (exact, over) refl

sbrk_granted :
    (l : Layout) (incr heap_end : ℕ)
    → IsExact l incr heap_end
    → ltb l.lkmc_heap_top (or_low l heap_end + incr) ≡ false
    → sbrk l incr heap_end ≡ (or_low l heap_end + incr, or_low l heap_end)
unfolding sbrk
sbrk_granted l incr heap_end exact fits = rw (exact, fits) refl

-- Addresses reach beyond the top of the heap by the largest `int` at least, so that no sum wraps.
abbrev pub HasReach : Layout → Type 0
HasReach l = l.lkmc_heap_top + int_max ≤ 2 ^ l.address_bits

-- If addresses reach beyond the top of the heap by 2 ^ 31 at least, and the heap is at a positive
-- address and ends in its range before: after any history of calls with sizes that are not negative
-- and are an `int`, the blocks that `_sbrk` has given out adjoin each other from where the heap ended
-- before, in order and without an overlap, up to where it ends now, and the heap has not grown
-- beyond its top. A call that is refused gives out nothing.
pub grants-Adjoin :
    (l : Layout) (incrs : List ℕ) (heap_end : ℕ)
    → HasReach l
    → All (λ incr. incr < int_max) incrs
    → 0 < l.lkmc_heap_low
    → l.lkmc_heap_low ≤ or_low l heap_end
    → or_low l heap_end ≤ l.lkmc_heap_top
    → Adjoin (or_low l heap_end) (grants l incrs heap_end).0 (or_low l (grants l incrs heap_end).1)
      × (or_low l (grants l incrs heap_end).1 ≤ l.lkmc_heap_top)
unfolding grants
grants-Adjoin l [] heap_end reach ints positive above below = (refl, below)
grants-Adjoin l (incr ∷ incrs) heap_end reach ints positive above below =
    let a = or_low l heap_end in
    let here = or_low_again l a (omega (arith, positive, above)) in
    let exact : IsExact l incr heap_end = mod-eq_of_lt (omega (arith, reach, ints.0, below)) in
    elim (Bool-cases (ltb l.lkmc_heap_top (a + incr))) [
      | inl over ↦
          let e = sbrk_refused l incr heap_end exact over in
          let rest =
            grants-Adjoin l incrs a reach ints.1 positive (rw here above) (rw here below) in
          rw (e, grants) (rw here at rest)
      | inr fits ↦
          let e = sbrk_granted l incr heap_end exact fits in
          let beyond = or_low_again l (a + incr) (omega (arith, positive, above)) in
          let some_there : a == 0 ≡ false = ground (arith, positive, above) in
          let rest =
            grants-Adjoin l incrs (a + incr) reach ints.1 positive
              (rw beyond (omega (arith, above))) (rw beyond (ground (arith, fits))) in
          rw (e, grants, some_there) ((refl, (rw beyond at rest).0), rest.1)
    ]
