-- ===== src/SeqFile.antt =====
-- Iterators under the kernel's sequence files: kernel_modules/seq_file.c, and the ones that
-- kernel_modules/scull.c has for its devices.
pub mod Devices
pub mod Counter
mod Tests
use linux_kernel_module_chea.Base.{
  ℕ, zero, suc, ◌+◌, ◌-◌, Bool, true, false, Option, none, some, List, [], ◌∷◌, ◌≡◌, ◌++◌, ltb, leb,
  if◌then◌else◌,
}
use linux_kernel_module_chea.Kernel.{Ret, ok, err, restartsys}
use linux_kernel_module_chea.Scull.Device.Defs.{Dev, Qset, Block}

-- The iterator of a sequence file with positions: `start` from a position, where the kernel grants an
-- allocation or not, `next` with the new position. `none` is a null pointer.
pub record Iterator : Type 0 where
  pub start : (kmalloc : Bool) → ℕ → Option ℕ
  pub next : ℕ → ℕ → Option ℕ × ℕ

-- The calls of one read, from an iterator `v` on: it may be cut, when the user's buffer is full;
-- otherwise `v` is shown, and `next` gives the next iterator or ends the read. With what is shown,
-- the position that the next read starts from, and what is left for `stop`.
pub data Shows (it : Iterator) : (v pos : ℕ) → List ℕ → (end : ℕ) → Option ℕ → Type 0 where
  cut : {v pos : ℕ} → Shows it v pos [] pos (some v)
  ended : {v pos end : ℕ} → it.next v pos ≡ (none, end) → Shows it v pos (v ∷ []) end none
  more :
      {v pos v' pos' end : ℕ} {vs : List ℕ} {last : Option ℕ}
      → it.next v pos ≡ (some v', pos')
      → Shows it v' pos' vs end last
      → Shows it v pos (v ∷ vs) end last

-- A file that is read until a read shows nothing: reads that show something, and one for which
-- `start` gives a null pointer. `kmalloc` is what the kernel answers to that last `start`; the
-- earlier ones may be answered otherwise.
pub data Reads (it : Iterator) (kmalloc : Bool) : (pos : ℕ) → List ℕ → Type 0 where
  eof : {pos : ℕ} → it.start kmalloc pos ≡ none → Reads it kmalloc pos []
  again :
      {pos v end : ℕ} {vs rest : List ℕ} {last : Option ℕ} (granted : Bool)
      → it.start granted pos ≡ some v
      → Shows it v pos vs end last
      → Reads it kmalloc end rest
      → Reads it kmalloc pos (vs ++ rest)

-- `scull_seq_start` and `scull_seq_next`: an iterator is the number of its device.
unfoldable pub scull_seq_start : (scull_nr_devs pos : ℕ) → Option ℕ
scull_seq_start n pos = if leb n pos then none else some pos

unfoldable pub scull_seq_next : (scull_nr_devs v pos : ℕ) → Option ℕ × ℕ
scull_seq_next n v pos = if leb n (pos + 1) then (none, pos + 1) else (some (pos + 1), pos + 1)

pub scull_seq_ops : ℕ → Iterator
scull_seq_ops n = record { start = λ kmalloc pos. scull_seq_start n pos; next = scull_seq_next n }

-- What `scull_seq_show` prints, but for the addresses.
pub data Line : Type 0 where
  device : (i qset quantum size : ℕ) → Line
  item : (has_array : Bool) → Line
  quantum_at : ℕ → Line

-- The pointers `data[i]` of the last item, up to `qset`.
unfoldable pub show_blocks : (n i : ℕ) → List (Option Block) → List Line
show_blocks zero i bs = []
show_blocks (suc n) i [] = []
show_blocks (suc n) i (none ∷ bs) = show_blocks n (i + 1) bs
show_blocks (suc n) i (some b ∷ bs) = quantum_at i ∷ show_blocks n (i + 1) bs

-- The scan of the list: only the last item is dumped.
unfoldable pub show_items : ℕ → List Qset → List Line
unfolding show_blocks
show_items qset [] = []
show_items qset (none ∷ qs) = item false ∷ show_items qset qs
show_items qset (some bs ∷ []) = item true ∷ show_blocks qset 0 bs
show_items qset (some bs ∷ (q ∷ qs)) = item true ∷ show_items qset (q ∷ qs)

unfoldable pub scull_seq_show : (interrupted : Bool) → (i : ℕ) → Dev → List Line × Ret
unfolding show_items
scull_seq_show interrupted i dev =
    if interrupted
    then ([], err restartsys)
    else (device i dev.qset dev.quantum dev.size ∷ show_items dev.qset dev.data', ok 0)

-- `start` and `next` of kernel_modules/seq_file.c, with the number of objects that stay allocated:
-- an iterator is an allocated number.
unfoldable pub start : (max : ℕ) → (kmalloc : Bool) → (pos : ℕ) → Option ℕ × ℕ
start max kmalloc pos =
    if kmalloc then (if leb max pos then (none, 1) else (some pos, 1)) else (none, 0)

unfoldable pub next : (max v pos : ℕ) → Option ℕ × ℕ
next max v pos = if leb max pos then (none, pos) else (some (v + 1), v + 1)

-- `stop`: how many objects `kfree` gives back.
abbrev pub stop : Option ℕ → ℕ
stop none = 0
stop (some v) = 1

pub my_seq_ops : ℕ → Iterator
my_seq_ops max = record { start = λ kmalloc pos. (start max kmalloc pos).0; next = next max }
