-- ===== src/Scull/Pipe/Read.antt =====
-- `scull_p_read` takes bytes from the front of the queue.
use linux_kernel_module_chea.Base.{
  ℕ, ◌+◌, ◌-◌, ◌≡◌, ◌≢◌, ◌<◌, ◌≤◌, ap, ◌∙◌, sym, arith, Bool, false, List, [], ◌++◌, length, take,
  drop, length-take, length-drop, get_elem?-append, get_elem?-take_if, get_elem?-drop, list_ext,
  leb, ltb, ◌==◌, if◌then◌else◌, min, All, Bool-cases, inl, inr,
}
use linux_kernel_module_chea.Kernel.{Cell, User, ok, err, Errno}
use linux_kernel_module_chea.Scull.Pipe.{
  Pipe, Mode, Wake, Outcome, asleep, fails, done, read_bytes, read_count, advance, is_empty,
  scull_p_read,
}
use linux_kernel_module_chea.Scull.Pipe.Wait.{IsWake, Found, wait_loop_rule}
use linux_kernel_module_chea.Scull.Pipe.Queue.{
  IsPipe, queue, queue_of, queue_of-length, queue-memory,
}

-- Reading `n` bytes at `rp`, of those that stand in one piece.
queue_of-read :
    (b : List Cell) (rp wp n : ℕ)
    → rp < length b
    → wp < length b
    → rp ≢ wp
    → n ≤ (if ltb rp wp then wp - rp else length b - rp)
    → queue_of b rp wp
      ≡ take n (drop rp b) ++ queue_of b (if rp + n == length b then 0 else rp + n) wp
unfolding queue_of
queue_of-read b rp wp n h k ne fit = list_ext _ _ λ i. ground (
  arith,
  get_elem?-append (drop rp b) (take wp b) i,
  get_elem?-take_if (wp - rp) (drop rp b) i,
  get_elem?-drop rp b i,
  get_elem?-append (take n (drop rp b)) (queue_of b (if rp + n == length b then 0 else rp + n) wp)
      i,
  length-take n (drop rp b),
  length-drop rp b,
  get_elem?-take_if n (drop rp b) i,
  get_elem?-take_if (wp - (rp + n)) (drop (rp + n) b) (i - n),
  get_elem?-drop (rp + n) b (i - n),
  get_elem?-append (drop (rp + n) b) (take wp b) (i - n),
  length-drop (rp + n) b,
)

-- The outcomes of a read of up to `count` bytes: it sleeps, gives up, or takes `n` bytes from the
-- front of the queue of the pipe `d` that it found, at the call or after a wait. `n` is positive if `count` is, and is all that
-- is asked for and stands in the queue, but for what lies behind the end of the buffer.
pub data ReadOutcome (dev : Pipe) (ws : List Wake) (count : ℕ) : Outcome → Type 0 where
  sleeps : ReadOutcome dev ws count asleep
  gave_up : {x : Errno} → ReadOutcome dev ws count (fails (err x))
  took :
      (d : Pipe) {d' : Pipe} {n : ℕ} {out : List Cell}
      → Found dev ws d
      → queue d ≢ []
      → queue d ≡ out ++ queue d'
      → length out ≡ n
      → n ≡ min count (min (length (queue d)) (d.buffersize - d.rp))
      → IsPipe d'
      → ReadOutcome dev ws count (done d' (ok n) out false)

module _ (dev : Pipe) (ws : List Wake) (u : User) (count : ℕ) (d : Pipe) (found : Found dev ws d)
    (is : IsPipe d) (ne : is_empty d ≡ false) where
  abbrev n : ℕ
  n = read_count d count

  abbrev bounds : (d.rp < length is.memory) × (d.wp < length is.memory)
  bounds = (omega (arith, is.rp, is.allocated), omega (arith, is.wp, is.allocated))

  count_fits : n ≤ (if ltb d.rp d.wp then d.wp - d.rp else length is.memory - d.rp)
  unfolding read_count
  count_fits = ground (arith, is.end, is.allocated)

  inside : d.rp + n ≤ length is.memory
  inside = ground (arith, count_fits, bounds.0, bounds.1)

  abbrev after : Pipe
  after = record d { rp = advance d d.rp n }

  after-IsPipe : IsPipe after
  after-IsPipe = record {
    memory = is.memory;
    buffer = is.buffer;
    allocated = is.allocated;
    end = is.end;
    nonempty = is.nonempty;
    int = is.int;
    wp = is.wp;
    rp = ground (arith, inside, is.end, is.allocated, is.nonempty);
  }

  queue-after : queue d ≡ take n (drop d.rp is.memory) ++ queue after
  queue-after =
      queue-memory d is.memory is.buffer
      ∙ queue_of-read is.memory d.rp d.wp n bounds.0 bounds.1 (ground arith) count_fits
      ∙ ap
          (λ (t : ℕ).
            take n (drop d.rp is.memory)
            ++ queue_of is.memory (if d.rp + n == t then 0 else d.rp + n) d.wp)
          (is.allocated ∙ sym is.end)
      ∙ ap (λ (q : List Cell). take n (drop d.rp is.memory) ++ q)
          (sym (queue-memory after is.memory is.buffer))

  length-queue :
      length (queue d) ≡ (if leb d.rp d.wp then d.wp - d.rp else d.buffersize - d.rp + d.wp)
  length-queue =
      ap length (queue-memory d is.memory is.buffer)
      ∙ queue_of-length is.memory d.rp d.wp (omega (arith, bounds.0)) (omega (arith, bounds.1))
      ∙ ap (λ (t : ℕ). if leb d.rp d.wp then d.wp - d.rp else t - d.rp + d.wp) is.allocated

  read_bytes-ReadOutcome : ReadOutcome dev ws count (read_bytes u n d d.buffer)
  unfolding read_bytes read_count
  read_bytes-ReadOutcome =
      let b = is.memory in
      let out = take n (drop d.rp b) in
      let short : ltb (length b) (d.rp + n) ≡ false = ground (arith, inside) in
      rw (is.buffer, read_bytes, short)
        (elim (Bool-cases (u.copy_to_user out)) [
          | inl bad ↦ rw bad gave_up
          | inr good ↦ rw good (
              took d found (λ e. absurd (ground (arith, ap length e, length-queue, is.wp, is.rp)))
                queue-after (omega (arith, length-take n (drop d.rp b), length-drop d.rp b, inside))
                (ground (arith, length-queue, is.end, is.wp, is.rp)) after-IsPipe)
        ])

-- If the pipe is well-formed at the call and when each wait ends, a read never touches memory
-- outside of the buffer: it sleeps, fails, or takes bytes from the front of the queue in order and
-- leaves the rest, whatever else happens to the pipe while it waits. It takes as many as are asked
-- for, queued, and left up to the end of the buffer, whichever is least.
pub scull_p_read-ReadOutcome :
    (interrupted : Bool) (m : Mode) (u : User) (count : ℕ) (dev : Pipe) (ws : List Wake)
    → IsPipe dev
    → All IsWake ws
    → ReadOutcome dev ws count (scull_p_read interrupted m u count dev ws)
unfolding scull_p_read
scull_p_read-ReadOutcome interrupted m u count dev ws is h = elim (Bool-cases interrupted) [
  | inl late ↦ rw late gave_up
  | inr calm ↦ rw calm (
      wait_loop_rule (ReadOutcome dev ws count) is_empty m.nonblock _ (λ _. sleeps) (λ _. gave_up)
        gave_up dev ws is h (λ d j f ne. read_bytes-ReadOutcome dev ws u count d f j ne))
]
