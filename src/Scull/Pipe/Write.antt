-- ===== src/Scull/Pipe/Write.antt =====
-- `scull_p_write` puts bytes at the end of the queue.
use linux_kernel_module_chea.Base.{
  ℕ, ◌+◌, ◌-◌, ◌≡◌, ◌≢◌, ◌<◌, ◌≤◌, refl, ap, ◌∙◌, sym, arith, Bool, false, some, List, [], ◌++◌,
  length, map, overwrite, length-map, length-overwrite, leb, ltb, if◌then◌else◌, min, All,
  Bool-cases, inl, inr,
}
use linux_kernel_module_chea.Kernel.{Cell, User, FillsBuffer, ok, err, fault, Errno}
use linux_kernel_module_chea.Scull.Pipe.{
  Pipe, Mode, Wake, Outcome, asleep, fails, done, spacefree, write_bytes, write_count, advance,
  is_full, scull_p_write,
}
use linux_kernel_module_chea.Scull.Pipe.Wait.{IsWake, Found, wait_loop_rule}
use linux_kernel_module_chea.Scull.Pipe.Queue.{IsPipe, queue, queue_of, queue-memory, spacefree_lem}
use linux_kernel_module_chea.Scull.Pipe.Append.{queue_of-write, queue_of-spare}

-- The outcomes of a write of up to `count` bytes: it sleeps, gives up, is spoilt by a failing copy,
-- which leaves the queue as it was, or appends the `n` bytes that come from the user to the queue of
-- the pipe `d` that it found, at the call or after a wait. `n` is all that is offered and fits in
-- one piece. Asynchronous readers are signalled if there are any.
pub data WriteOutcome (dev : Pipe) (ws : List Wake) (u : User) (count : ℕ) : Outcome → Type 0 where
  sleeps : WriteOutcome dev ws u count asleep
  gave_up : {x : Errno} → WriteOutcome dev ws u count (fails (err x))
  spoilt :
      (d : Pipe) {d' : Pipe}
      → Found dev ws d
      → queue d' ≡ queue d
      → IsPipe d'
      → WriteOutcome dev ws u count (done d' (err fault) [] false)
  put :
      (d : Pipe) {d' : Pipe} {n : ℕ} {s : Bool}
      → Found dev ws d
      → spacefree d ≢ 0
      → queue d' ≡ queue d ++ map some (u.copy_from_user n).0
      → n ≡ min count (min (spacefree d) (d.buffersize - d.wp))
      → IsPipe d'
      → s ≡ d.async_queue
      → WriteOutcome dev ws u count (done d' (ok n) [] s)

module _ (dev : Pipe) (ws : List Wake) (u : User) (fill : FillsBuffer u) (count : ℕ) (d : Pipe)
    (found : Found dev ws d) (is : IsPipe d) (ne : is_full d ≡ false) where
  abbrev n : ℕ
  n = write_count d count

  abbrev bytes : List Cell
  bytes = map some (u.copy_from_user n).0

  length-bytes : length bytes ≡ n
  length-bytes = length-map (u.copy_from_user n).0 some ∙ fill.fills n

  count_lem : n ≡ min count (min (spacefree d) (d.buffersize - d.wp))
  unfolding write_count
  count_lem = ground (arith, spacefree_lem d is, is.end, is.rp, is.wp)

  fits : d.wp + length bytes ≤ length is.memory
  fits = omega (arith, count_lem, length-bytes, is.allocated, is.wp)

  room :
      length bytes
      ≤ (if leb d.rp d.wp then length is.memory - 1 - (d.wp - d.rp) else d.rp - d.wp - 1)
  room = ground (arith, count_lem, length-bytes, spacefree_lem d is, is.allocated)

  abbrev stored : Pipe
  stored = record d { buffer = some (overwrite is.memory d.wp bytes) }

  stored-IsPipe : IsPipe stored
  stored-IsPipe = record {
    memory = overwrite is.memory d.wp bytes;
    buffer = refl;
    allocated = length-overwrite is.memory d.wp bytes ∙ is.allocated;
    end = is.end;
    nonempty = is.nonempty;
    int = is.int;
    rp = is.rp;
    wp = is.wp;
  }

  abbrev bounds : (d.rp < length is.memory) × (d.wp < length is.memory)
  bounds = (omega (arith, is.rp, is.allocated), omega (arith, is.wp, is.allocated))

  queue-stored : queue stored ≡ queue d
  queue-stored =
      queue-memory stored _ refl
      ∙ queue_of-spare is.memory bytes d.rp d.wp bounds.0 bounds.1 fits room
      ∙ sym (queue-memory d is.memory is.buffer)

  abbrev after : Pipe
  after = record stored { wp = advance d d.wp n }

  queue-after : queue after ≡ queue d ++ bytes
  queue-after =
      queue-memory after _ refl
      ∙ ap (queue_of (overwrite is.memory d.wp bytes) d.rp) {x = advance d d.wp n}
          (ground (arith, length-bytes, is.allocated, is.end))
      ∙ queue_of-write is.memory bytes d.rp d.wp bounds.0 bounds.1 fits room
      ∙ ap (λ (q : List Cell). q ++ bytes) (sym (queue-memory d is.memory is.buffer))

  after-IsPipe : IsPipe after
  after-IsPipe = record {
    memory = overwrite is.memory d.wp bytes;
    buffer = refl;
    allocated = length-overwrite is.memory d.wp bytes ∙ is.allocated;
    end = is.end;
    nonempty = is.nonempty;
    int = is.int;
    rp = is.rp;
    wp = ground (arith, fits, length-bytes, is.end, is.allocated, is.nonempty);
  }

  write_bytes-WriteOutcome : WriteOutcome dev ws u count (write_bytes u n d d.buffer)
  unfolding write_bytes
  write_bytes-WriteOutcome =
      let short : ltb (length is.memory) (d.wp + n) ≡ false = ground (arith, fits, length-bytes) in
      rw (is.buffer, write_bytes, short)
        (elim (Bool-cases (u.copy_from_user n).1) [
          | inl bad ↦ rw bad (spoilt d found queue-stored stored-IsPipe)
          | inr good ↦ rw good (put d found (ground arith) queue-after count_lem after-IsPipe refl)
        ])

-- If the pipe is well-formed at the call and when each wait ends, a write never touches memory
-- outside of the buffer nor a queued byte: it sleeps, fails, or appends the user's bytes to the
-- queue in order, whatever else happens to the pipe while it waits.
pub scull_p_write-WriteOutcome :
    (interrupted : Bool) (m : Mode) (u : User) (count : ℕ) (dev : Pipe) (ws : List Wake)
    → FillsBuffer u
    → IsPipe dev
    → All IsWake ws
    → WriteOutcome dev ws u count (scull_p_write interrupted m u count dev ws)
unfolding scull_p_write
scull_p_write-WriteOutcome interrupted m u count dev ws fill is h = elim (Bool-cases interrupted) [
  | inl late ↦ rw late gave_up
  | inr calm ↦ rw calm (
      wait_loop_rule (WriteOutcome dev ws u count) is_full m.nonblock _ (λ _. sleeps) (λ _. gave_up)
        gave_up dev ws is h (λ d j f ne. write_bytes-WriteOutcome dev ws u fill count d f j ne))
]
