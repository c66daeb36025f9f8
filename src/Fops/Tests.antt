-- ===== src/Fops/Tests.antt =====
-- Runs of the file of four bytes.
use linux_kernel_module_chea.Base.{
  ℕ, zero, suc, ◌≡◌, refl, false, some, List, [], ◌∷◌, ap, length, replicate, map, take,
}
use linux_kernel_module_chea.Kernel.{Cell, User, FillsBuffer, ok}
use linux_kernel_module_chea.Fops.{read_fixed, write_fixed}
use linux_kernel_module_chea.Fops.Laws.{read_fixed-write_fixed}

abbrev sevens : User
sevens = record { copy_to_user = λ bs. false; copy_from_user = λ n. (replicate n 7, false) }

length-sevens : (n : ℕ) → length (replicate {A = ℕ} n 7) ≡ n
length-sevens zero = refl
length-sevens (suc n) = ap suc (length-sevens n)

fills_sevens : FillsBuffer sevens
fills_sevens = record { fills = length-sevens }

-- The contents at the start.
abbrev data' : List Cell
data' = some 97 ∷ some 98 ∷ some 99 ∷ some 100 ∷ []

writes_two : (write_fixed sevens 2 1 data').ret ≡ ok 2
unfolding write_fixed
writes_two = refl

reads_two : (read_fixed sevens 2 1 (write_fixed sevens 2 1 data').data').ret ≡ ok 2
unfolding read_fixed write_fixed
reads_two = refl

read_fixed-write_fixed_example :
    (◌≡◌ {A = ℕ} 2 2)
    × ((read_fixed sevens 2 1 (write_fixed sevens 2 1 data').data').out
        ≡ take 2 (map some (7 ∷ 7 ∷ [])))
read_fixed-write_fixed_example =
    read_fixed-write_fixed sevens sevens 2 1 data' 2 2 fills_sevens refl writes_two reads_two
