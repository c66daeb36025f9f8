-- ===== src/Memcmp/Tests.antt =====
-- Two memories that differ in their third byte.
use linux_kernel_module_chea.Base.{ℕ, ◌≡◌, refl, List, [], ◌∷◌, arith}
use linux_kernel_module_chea.Memcmp.{
  fails, lkmc_assert_memcmp, compare_from, Compares, lkmc_assert_memcmp-Compares,
}

abbrev left_bytes : List ℕ
left_bytes = 1 ∷ 2 ∷ 3 ∷ 4 ∷ []

abbrev right_bytes : List ℕ
right_bytes = 1 ∷ 2 ∷ 9 ∷ []

lkmc_assert_memcmp-Compares_example :
    Compares 3 0 left_bytes right_bytes (lkmc_assert_memcmp left_bytes right_bytes 3)
lkmc_assert_memcmp-Compares_example =
    lkmc_assert_memcmp-Compares left_bytes right_bytes 3 (omega arith) (omega arith)

differs_at_two : lkmc_assert_memcmp left_bytes right_bytes 3 ≡ fails 3 9 2
unfolding lkmc_assert_memcmp compare_from
differs_at_two = refl
