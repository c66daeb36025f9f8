-- ===== src/Baremetal/Tests.antt =====
-- A heap of twelve bytes, and a UART.
use linux_kernel_module_chea.Base.{◌≤◌, ◌≡◌, refl, none, some, [], ◌∷◌, arith}
use linux_kernel_module_chea.Baremetal.{Layout, Looks, read, sbrk}
use linux_kernel_module_chea.Baremetal.Heap.{grants, Adjoin, grants-Adjoin}

abbrev layout : Layout
layout = record { address_bits = 64; lkmc_heap_low = 100; lkmc_heap_top = 112 }

-- The second of three calls is refused.
two_blocks : grants layout (8 ∷ 8 ∷ 4 ∷ []) 0 ≡ ((100, 8) ∷ (108, 4) ∷ [], 112)
unfolding grants
two_blocks = refl

grants-Adjoin_example : Adjoin 100 ((100, 8) ∷ (108, 4) ∷ []) 112 × (112 ≤ 112)
unfolding grants
grants-Adjoin_example =
    grants-Adjoin layout (8 ∷ 8 ∷ 4 ∷ []) 0 (omega arith)
      (omega arith, (omega arith, (omega arith, tt))) (omega arith) (omega arith) (omega arith)

-- A heap in the upper half of the addresses of a machine of 32 bits: the largest `int` is granted,
-- and the heap ends below where it started.
abbrev upper : Layout
upper = record { address_bits = 32; lkmc_heap_low = 2164260864; lkmc_heap_top = 2172649472 }

wraps : sbrk upper 2147483647 0 ≡ (16777215, 2164260864)
unfolding sbrk
wraps = refl

abbrev looks : Looks
looks = none ∷ some 5 ∷ some 6 ∷ none ∷ some 7 ∷ []

reads_two : read 4 looks ≡ some (5 ∷ 6 ∷ [], some 7 ∷ [])
unfolding read
reads_two = refl
