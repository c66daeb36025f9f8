-- ===== src/Scull/Device/Tests.antt =====
-- Runs of the bare device.
use linux_kernel_module_chea.Base.{
  List, ℕ, zero, suc, ◌≡◌, refl, true, false, none, some, [], ◌∷◌, ap, arith, replicate, map, take,
  length,
}
use linux_kernel_module_chea.Kernel.{Env, User, FillsBuffer, ok, err, fault}
use linux_kernel_module_chea.Scull.Params.{Params}
use linux_kernel_module_chea.Scull.Device.Defs.{Dev}
use linux_kernel_module_chea.Scull.Device.Io.{scull_open, scull_read, scull_write}
use linux_kernel_module_chea.Scull.Device.Place.{IsGeometry}
use linux_kernel_module_chea.Scull.Device.Shape.{IsShaped}
use linux_kernel_module_chea.Scull.Device.Write.{
  Stores, Spares, scull_write-Stores, scull_write-Spares,
}
use linux_kernel_module_chea.Scull.Device.Read.{Reads, scull_read-Reads}
use linux_kernel_module_chea.Scull.Device.RoundTrip.{scull_read-scull_write}
use linux_kernel_module_chea.Scull.Device.Late.{scull_read_late, scull_write_late}
use linux_kernel_module_chea.Scull.Device.Run.{
  step, Call, run, IsRun, fresh, opens, reads, writes, run-fresh-IsShaped,
}

-- A user whose bytes are all 7, and one whose memory cannot be read.
abbrev sevens : User
sevens = record { copy_to_user = λ bs. false; copy_from_user = λ n. (replicate n 7, false) }

abbrev unreadable : User
unreadable = record { copy_to_user = λ bs. false; copy_from_user = λ n. (replicate n 0, true) }

length-sevens : (v n : ℕ) → length (replicate n v) ≡ n
length-sevens v zero = refl
length-sevens v (suc n) = ap suc (length-sevens v n)

fills_sevens : FillsBuffer sevens
fills_sevens = record { fills = length-sevens 7 }

fills_unreadable : FillsBuffer unreadable
fills_unreadable = record { fills = length-sevens 0 }

abbrev calm : Env
calm = record { interrupted = false; allocs = λ n. true; user = sevens }

abbrev faulty : Env
faulty = record { interrupted = false; allocs = λ n. true; user = unreadable }

-- Three arrays of two quanta of four bytes: a write at 13 goes to offset 1 of the second set.
abbrev dev : Dev
dev = fresh 4 2

geometry : IsGeometry 4 2
geometry = record { quantum_pos = omega arith; qset_pos = omega arith; itemsize_int = omega arith }

-- A write of five bytes at 13 stops at the end of the quantum.
writes_three : (scull_write dev calm 5 13).ret ≡ ok 3
unfolding scull_write
writes_three = refl

reads_two : (scull_read (scull_write dev calm 5 13).dev calm 2 13).ret ≡ ok 2
unfolding scull_read scull_write
reads_two = refl

write_faults : (scull_write dev faulty 5 13).ret ≡ err fault
unfolding scull_write
write_faults = refl

scull_read-scull_write_example :
    (◌≡◌ {A = ℕ} 2 2)
    × ((scull_read (scull_write dev calm 5 13).dev calm 2 13).out
        ≡ take 2 (map some (7 ∷ 7 ∷ 7 ∷ [])))
scull_read-scull_write_example =
    scull_read-scull_write dev calm calm 5 2 13 3 2 geometry (omega arith) tt fills_sevens
      (omega arith) (omega arith) writes_three reads_two

scull_write-Stores_example : Stores dev calm 5 13 3 (scull_write dev calm 5 13)
scull_write-Stores_example =
    scull_write-Stores dev calm 5 13 3 geometry (omega arith) tt fills_sevens writes_three

scull_write-Spares_example : Spares dev faulty 5 13 (scull_write dev faulty 5 13)
scull_write-Spares_example =
    scull_write-Spares dev faulty 5 13 fault geometry (omega arith) tt fills_unreadable write_faults

abbrev params : Params
params = record { scull_quantum = 4000; scull_qset = 1000; scull_p_buffer = 4000 }

-- A device with one set of two quanta, of which one is there.
abbrev half : Dev
half = record {
  data' = some (none ∷ some (replicate 4 (some 1)) ∷ []) ∷ [];
  quantum = 4;
  qset = 2;
  size = 8;
}

half-IsShaped : IsShaped half
half-IsShaped = ((refl, (tt, (refl, tt))), tt)

scull_read-Reads_example : Reads half 9 5 (scull_read half calm 9 5)
scull_read-Reads_example =
    scull_read-Reads half calm 9 5 geometry (omega arith) half-IsShaped (omega arith)

-- A write, a read that has waited for it, an opening with other parameters, and a write after that.
abbrev history : List Call
history = writes 0 calm 5 13 ∷ reads 1 calm 5 13 ∷ opens params true false ∷ writes 0 calm 5 13 ∷ []

history-IsRun : IsRun (fresh 4 2) [] history
unfolding IsRun step scull_write_late scull_read_late scull_open
history-IsRun = ((fills_sevens, (refl, refl)), (tt, (tt, ((fills_sevens, (refl, refl)), tt))))

run-fresh-IsShaped_example : IsShaped (run (fresh 4 2) [] history)
run-fresh-IsShaped_example = run-fresh-IsShaped 4 2 history history-IsRun

abbrev wider : Params
wider = record { scull_quantum = 4; scull_qset = 3; scull_p_buffer = 4000 }

-- A write that has waited for such an opening gives the set an array of the old size.
late_write : (scull_write_late 4 2 (scull_open wider true false dev).0 calm 1 0).dev ≡ record {
  data' = some (some (some 7 ∷ none ∷ none ∷ none ∷ []) ∷ none ∷ []) ∷ [];
  quantum = 4;
  qset = 3;
  size = 1;
}
unfolding scull_open scull_write_late
late_write = refl
