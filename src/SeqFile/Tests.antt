-- ===== src/SeqFile/Tests.antt =====
-- Sequence files that are read in one piece and in several.
use linux_kernel_module_chea.Base.{◌≡◌, refl, true, false, none, some, [], ◌∷◌, arith}
use linux_kernel_module_chea.Kernel.{ok}
use linux_kernel_module_chea.SeqFile.{
  cut, ended, more, Reads, eof, again, scull_seq_start, scull_seq_next, scull_seq_ops,
  scull_seq_show, device, item, quantum_at, start, next, my_seq_ops,
}
use linux_kernel_module_chea.SeqFile.Devices.{upto, Reads-upto}
use linux_kernel_module_chea.SeqFile.Counter.{Shown, Reads-IsTail}

-- Three devices, the first two in one read.
cut_read : Reads (scull_seq_ops 3) true 0 (0 ∷ 1 ∷ 2 ∷ [])
unfolding scull_seq_ops scull_seq_start scull_seq_next
cut_read = again true refl (more refl (more refl cut)) (again true refl (ended refl) (eof refl))

Reads-upto_example : 0 ∷ 1 ∷ 2 ∷ [] ≡ upto 3 0
Reads-upto_example = Reads-upto 3 true 0 (0 ∷ 1 ∷ 2 ∷ []) cut_read

-- With `max` 2, one read shows 2 as well.
whole_read : Reads (my_seq_ops 2) true 0 (0 ∷ 1 ∷ 2 ∷ [])
unfolding my_seq_ops start next
whole_read = again true refl (more refl (more refl (ended refl))) (eof refl)

-- A reader that takes two lines at a time never sees it.
in_pairs : Reads (my_seq_ops 2) true 0 (0 ∷ 1 ∷ [])
unfolding my_seq_ops start next
in_pairs = again true refl (more refl (more refl cut)) (eof refl)

-- One whose second `start` gets no memory is shown the first line.
gives_up : Reads (my_seq_ops 2) false 0 (0 ∷ [])
unfolding my_seq_ops start next
gives_up = again true refl (more refl cut) (eof refl)

Reads-IsTail_example : Shown 2 0 false (0 ∷ [])
Reads-IsTail_example = Reads-IsTail 2 false 0 (0 ∷ []) (omega arith) gives_up

-- A device whose last item has one block.
dumps_last :
    scull_seq_show false 0
      (record { data' = none ∷ some (none ∷ some [] ∷ []) ∷ []; quantum = 4; qset = 2; size = 0 })
    ≡ (device 0 2 4 0 ∷ item false ∷ item true ∷ quantum_at 1 ∷ [], ok 0)
unfolding scull_seq_show
dumps_last = refl
