-- ===== src/Scull/Pipe/Queue.antt =====
-- What a pipe holds, as a queue of bytes.
use linux_kernel_module_chea.Base.{
  mod_once, get_elem?, get_elem?-append, get_elem?-take_if, get_elem?-drop, ℕ, ◌+◌, ◌-◌, ◌%◌, ◌^◌,
  ◌≡◌, ◌<◌, ◌≤◌, arith, none, some, List, [], ◌++◌, length, take, drop, length-take, length-drop,
  length-append, leb, ltb, ◌==◌, if◌then◌else◌,
}
use native.Mathlib.Decide.{dec_lt}
use native.Mathlib.Nat.{mod-eq_of_lt}
use linux_kernel_module_chea.Kernel.{Cell}
use linux_kernel_module_chea.Scull.Params.{int_max}
use linux_kernel_module_chea.Scull.Pipe.{Pipe, spacefree}

-- The pointers lie in the buffer, which has the size that the pipe takes it to have.
pub record IsPipe (p : Pipe) : Type 0 where
  pub memory : List Cell
  pub buffer : p.buffer ≡ some memory
  pub allocated : length memory ≡ p.buffersize
  pub end : p.end ≡ p.buffersize
  pub nonempty : 0 < p.buffersize
  pub int : p.buffersize < int_max
  pub rp : p.rp < p.buffersize
  pub wp : p.wp < p.buffersize

-- The bytes from the read pointer up to the write pointer, round the end of the buffer.
unfoldable pub queue_of : List Cell → (rp wp : ℕ) → List Cell
queue_of b rp wp = if leb rp wp then take (wp - rp) (drop rp b) else drop rp b ++ take wp b

unfoldable pub queue : Pipe → List Cell
unfolding queue_of
queue p = elim p.buffer [ none ↦ [] | some b ↦ queue_of b p.rp p.wp ]

pub queue_of-length :
    (b : List Cell) (rp wp : ℕ)
    → rp ≤ length b
    → wp ≤ length b
    → length (queue_of b rp wp) ≡ (if leb rp wp then wp - rp else length b - rp + wp)
unfolding queue_of
queue_of-length b rp wp h k = ground (
  arith,
  length-take (wp - rp) (drop rp b),
  length-drop rp b,
  length-append (drop rp b) (take wp b),
  length-take wp b,
)

-- The queue by its indices.
pub get_elem?-queue_of :
    (b : List Cell) (rp wp i : ℕ)
    → rp ≤ length b
    → wp ≤ length b
    → get_elem? (queue_of b rp wp) i ≡ (
        if leb rp wp
        then (if ltb i (wp - rp) then get_elem? b (rp + i) else none)
        else (if ltb i (length b - rp)
            then get_elem? b (rp + i)
            else (if ltb (i - (length b - rp)) wp
                then get_elem? b (i - (length b - rp))
                else none)))
unfolding queue_of
get_elem?-queue_of b rp wp i h k = ground (
  arith,
  get_elem?-append (drop rp b) (take wp b) i,
  length-drop rp b,
  get_elem?-take_if (wp - rp) (drop rp b) i,
  get_elem?-drop rp b i,
  get_elem?-take_if wp b (i - (length b - rp)),
)

pub queue-memory : (p : Pipe) (b : List Cell) → p.buffer ≡ some b → queue p ≡ queue_of b p.rp p.wp
unfolding queue
queue-memory p b e = rw (e, queue)

spacefree_cases :
    (rp wp size : ℕ)
    → rp < size
    → wp < size
    → size < int_max
    → (if rp == wp
        then (size + 2 ^ 64 - 1) % 2 ^ 64
        else ((rp + size - wp) % size + 2 ^ 64 - 1) % 2 ^ 64)
      ≡ (if leb rp wp then size - 1 - (wp - rp) else rp - wp - 1)
spacefree_cases rp wp size h k small = elim (dec_lt wp rp) [
  | yes behind ↦
      let m : (rp + size - wp) % size ≡ rp - wp =
        mod_once (rp - wp) size (rp + size - wp) (omega arith) (omega arith) in
      rw m (ground arith)
  | no ahead ↦ ground (arith, mod-eq_of_lt {n = rp + size - wp} {m = size})
]

pub spacefree_lem :
    (p : Pipe)
    → IsPipe p
    → spacefree p ≡ (if leb p.rp p.wp then p.buffersize - 1 - (p.wp - p.rp) else p.rp - p.wp - 1)
unfolding spacefree
spacefree_lem p is = spacefree_cases p.rp p.wp p.buffersize is.rp is.wp is.int

-- In a well-formed pipe free space and queued bytes make up the buffer but for one byte.
pub spacefree-queue : (p : Pipe) → IsPipe p → spacefree p + length (queue p) + 1 ≡ p.buffersize
unfolding queue
spacefree-queue p is =
    let b = is.memory in
    rw (is.buffer, queue)
      (ground (
        arith,
        spacefree_lem p is,
        queue_of-length b p.rp p.wp (omega (arith, is.allocated, is.rp))
            (omega (arith, is.allocated, is.wp)),
        is.allocated,
        is.rp,
        is.wp,
        is.nonempty,
      ))
