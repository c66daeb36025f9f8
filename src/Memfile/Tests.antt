-- ===== src/Memfile/Tests.antt =====
-- Runs of the file: a write of three bytes at 4 to a file of two bytes.
use linux_kernel_module_chea.Base.{
  ℕ, zero, suc, ◌<◌, ◌≡◌, ◌≢◌, refl, true, false, some, [], ◌∷◌, ap, arith, length, replicate,
  get_or, map, none,
}
use linux_kernel_module_chea.Kernel.{Cell, User, FillsBuffer, ok}
use linux_kernel_module_chea.Memfile.{DynArr, read, write}
use linux_kernel_module_chea.Memfile.Transfer.{IsFile, Writes, write-Writes}
use linux_kernel_module_chea.Memfile.RoundTrip.{read-write}

abbrev sevens : User
sevens = record { copy_to_user = λ bs. false; copy_from_user = λ n. (replicate n 7, false) }

length-sevens : (n : ℕ) → length (replicate {A = ℕ} n 7) ≡ n
length-sevens zero = refl
length-sevens (suc n) = ap suc (length-sevens n)

fills_sevens : FillsBuffer sevens
fills_sevens = record { fills = length-sevens }

abbrev file : DynArr
file = record { buf = some (some 1 ∷ some 2 ∷ none ∷ []); used = 2; size = 3 }

two_stored : (j : ℕ) → j < 2 → get_or {A = Cell} (some 1 ∷ some 2 ∷ none ∷ []) j none ≢ none
two_stored zero h e = cc
two_stored (suc zero) h e = cc
two_stored (suc (suc j)) h e = absurd (omega arith)

file-IsFile : IsFile file
file-IsFile = record {
  memory = some 1 ∷ some 2 ∷ none ∷ [];
  array = record { buf = refl; length_size = refl; used = omega arith; stored = two_stored };
}

writes_three : (write true sevens 3 4 file).ret ≡ ok 3
unfolding write
writes_three = refl

reads_three : (read sevens 3 4 (write true sevens 3 4 file).data').ret ≡ ok 3
unfolding read write
reads_three = refl

write-Writes_example : Writes sevens 3 4 file (write true sevens 3 4 file)
write-Writes_example = write-Writes true sevens 3 4 file fills_sevens file-IsFile (omega arith)

read-write_example :
    (◌≡◌ {A = ℕ} 3 3)
    × ((read sevens 3 4 (write true sevens 3 4 file).data').out ≡ map some (7 ∷ 7 ∷ 7 ∷ []))
read-write_example =
    read-write true sevens sevens 3 4 file 3 3 fills_sevens file-IsFile (omega arith) writes_three
      reads_three
