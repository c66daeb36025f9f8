-- ===== src/Memcmp.antt =====
-- lkmc.c: the comparison of memory in `lkmc_assert_memcmp`.
mod Tests
use linux_kernel_module_chea.Base.{
  ℕ, zero, suc, ◌+◌, ◌≤◌, ◌<◌, ◌≡◌, ◌≢◌, refl, ◌∙◌, sym, ap, Bool, true, false, not, Option, none,
  some, List, [], ◌∷◌, length, get_elem?, take, ◌==◌, ltb, if◌then◌else◌, arith, Bool-cases, inl,
  inr,
}

-- How the call ends: it returns, or it prints two bytes and their index and aborts. `undefined`: it
-- reads beyond one of the two memories.
pub data Assertion : Type 0 where
  holds : Assertion
  fails : (b1 b2 index : ℕ) → Assertion
  undefined : Assertion

-- The loop from index `i` on, with `n` to go, on the bytes from there on.
unfoldable pub compare_from : (n i : ℕ) → (s1b s2b : List ℕ) → Assertion
compare_from zero i s1b s2b = holds
compare_from (suc n) i [] s2b = undefined
compare_from (suc n) i (b1 ∷ s1b) [] = undefined
compare_from (suc n) i (b1 ∷ s1b) (b2 ∷ s2b) =
    let rest = compare_from n (i + 1) s1b s2b in if b1 == b2 then rest else fails b1 b2 i

unfoldable pub lkmc_assert_memcmp : (s1 s2 : List ℕ) → (n : ℕ) → Assertion
unfolding compare_from
lkmc_assert_memcmp s1 s2 n = compare_from n 0 s1 s2

-- What the first `n` bytes of two memories, which stand from index `i` on, say of the call.
pub data Compares (n i : ℕ) (s1 s2 : List ℕ) : Assertion → Type 0 where
  same : take n s1 ≡ take n s2 → Compares n i s1 s2 holds
  differ :
      (k b1 b2 index : ℕ)
      → k < n
      → index ≡ i + k
      → get_elem? s1 k ≡ some b1
      → get_elem? s2 k ≡ some b2
      → b1 ≢ b2
      → take k s1 ≡ take k s2
      → Compares n i s1 s2 (fails b1 b2 index)

Compares-cons :
    {n i : ℕ} (b : ℕ) {s1 s2 : List ℕ} {r : Assertion}
    → Compares n (i + 1) s1 s2 r
    → Compares (suc n) i (b ∷ s1) (b ∷ s2) r
Compares-cons b (same e) = same (ap (λ (xs : List ℕ). b ∷ xs) e)
Compares-cons b (differ k b1 b2 index lt at e1 e2 other before) =
    differ (suc k) b1 b2 index (omega (arith, lt)) (omega (arith, at)) e1 e2 other
      (ap (λ (xs : List ℕ). b ∷ xs) before)

compare_from-Compares :
    (n i : ℕ) (s1 s2 : List ℕ)
    → n ≤ length s1
    → n ≤ length s2
    → Compares n i s1 s2 (compare_from n i s1 s2)
unfolding compare_from
compare_from-Compares zero i s1 s2 l1 l2 = same refl
compare_from-Compares (suc n) i [] s2 l1 l2 = absurd (omega (arith, l1))
compare_from-Compares (suc n) i (x ∷ s1) [] l1 l2 = absurd (omega (arith, l2))
compare_from-Compares (suc n) i (x ∷ s1) (y ∷ s2) l1 l2 = elim (Bool-cases (x == y)) [
  | inl equal ↦
      let e : x ≡ y = ground (arith, equal) in
      let ih = compare_from-Compares n (i + 1) s1 s2 (omega (arith, l1)) (omega (arith, l2)) in
      rw equal (rw e (Compares-cons y ih))
  | inr other ↦
      rw other (differ 0 x y i (omega arith) (omega arith) refl refl (ground (arith, other)) refl)
]

-- If both memories have `n` bytes, then `lkmc_assert_memcmp` returns exactly if the first `n` bytes are
-- the same, and otherwise aborts with the first index where they differ and the two bytes there.
pub lkmc_assert_memcmp-Compares :
    (s1 s2 : List ℕ) (n : ℕ)
    → n ≤ length s1
    → n ≤ length s2
    → Compares n 0 s1 s2 (lkmc_assert_memcmp s1 s2 n)
unfolding lkmc_assert_memcmp
lkmc_assert_memcmp-Compares s1 s2 n l1 l2 = compare_from-Compares n 0 s1 s2 l1 l2
