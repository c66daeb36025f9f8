-- ===== src/Scull/Pipe/Open.antt =====
-- Opening, releasing and polling a pipe.
use linux_kernel_module_chea.Base.{
  ℕ, ◌+◌, ◌-◌, ◌%◌, ◌^◌, ◌≡◌, ◌≢◌, ◌<◌, ◌≤◌, ◌↔◌, refl, ap, arith, Bool, true, false, Option, none,
  some, List, [], ◌∷◌, length, length-replicate, ltb, ◌==◌, if◌then◌else◌, Bool-cases, Option-cases,
  some_inj, sym, ◌∙◌, inl, inr,
}
use linux_kernel_module_chea.Kernel.{Cell, User, Ret, undefined}
use linux_kernel_module_chea.Scull.Params.{Params, int_max}
use linux_kernel_module_chea.Scull.Ioctl.{Abi, IoctlEnv, act, scull_ioctl}
use linux_kernel_module_chea.Scull.Ioctl.Laws.{IsAbi, plain, action_of_all, by_action}
use linux_kernel_module_chea.Scull.Pipe.{
  Pipe, Mode, Wake, Outcome, fails, scull_p_open, open_buffer, scull_p_release, scull_p_poll,
  scull_p_write, spacefree, write_count, write_bytes, wait_loop, is_full, to_size, inc, dec,
  to_size,
}
use linux_kernel_module_chea.Scull.Pipe.Queue.{
  IsPipe, queue, queue_of, spacefree-queue, spacefree_lem,
}

-- What an opening goes on with has the size that it takes it to have: new memory, or memory of an
-- earlier opening under the same parameter.
abbrev pub FitsBuffer : ℕ → Option (List Cell) → Type 0
FitsBuffer p_buffer none = Unit
FitsBuffer p_buffer (some b) = length b ≡ p_buffer

open_buffer-length :
    (p_buffer : ℕ) (alloc : Bool) (o : Option (List Cell)) (b : List Cell)
    → p_buffer < int_max
    → FitsBuffer p_buffer o
    → open_buffer p_buffer alloc o ≡ some b
    → length b ≡ p_buffer
unfolding open_buffer
open_buffer-length p_buffer true none b small fit e =
    let size : (if ltb p_buffer int_max then p_buffer else p_buffer + (2 ^ 64 - 2 ^ 32))
        ≡ p_buffer =
      ground arith in
    ap length (sym (some_inj e)) ∙ length-replicate (to_size p_buffer) none ∙ size
open_buffer-length p_buffer false none b small fit e = cc
open_buffer-length p_buffer alloc (some c) b small fit e = ap length (sym (some_inj e)) ∙ fit

queue-start : (b : List Cell) → queue_of b 0 0 ≡ []
unfolding queue_of
queue-start b = refl

-- An opening that succeeds leaves an empty and well-formed pipe, if the parameter is a positive `int`
-- and memory of an earlier opening has that size. It discards what was queued.
pub scull_p_open-IsPipe :
    (p_buffer : ℕ) (alloc : Bool) (m : Mode) (nonseekable : Ret) (dev : Pipe)
    → 0 < p_buffer
    → p_buffer < int_max
    → FitsBuffer p_buffer dev.buffer
    → open_buffer p_buffer alloc dev.buffer ≢ none
    → (let d = (scull_p_open p_buffer false alloc m nonseekable dev).0 in IsPipe d × (queue d ≡ []))
unfolding scull_p_open queue
scull_p_open-IsPipe p_buffer alloc m nonseekable dev pos small fit got =
    elim (Option-cases (open_buffer p_buffer alloc dev.buffer)) [
      | inl e ↦ absurd (got e)
      | inr (b, e) ↦
          rw (e, scull_p_open)
            (
              record {
                memory = b;
                buffer = refl;
                allocated = open_buffer-length p_buffer alloc dev.buffer b small fit e;
                end = refl;
                nonempty = pos;
                int = small;
                rp = pos;
                wp = pos;
              },
              rw (queue-start b),
            )
    ]

wait_loop-go :
    (stuck : Pipe → Bool) (nonblock : Bool) (k : Pipe → Outcome) (d : Pipe) (ws : List Wake)
    → stuck d ≡ false
    → wait_loop stuck nonblock k d ws ≡ k d
unfolding wait_loop
wait_loop-go stuck nonblock k d [] h = rw h
wait_loop-go stuck nonblock k d (w ∷ ws) h = rw h

empty_space :
    (d : Pipe)
    → d.rp ≡ 0
    → d.wp ≡ 0
    → d.buffersize < int_max
    → 0 < d.buffersize
    → spacefree d ≡ d.buffersize - 1
unfolding spacefree
empty_space d r w small pos = ground arith

write_count-start :
    (d : Pipe) (count : ℕ)
    → d.rp ≡ 0
    → d.wp ≡ 0
    → count ≤ spacefree d
    → count ≤ d.end
    → write_count d count ≡ count
unfolding write_count
write_count-start d count r w room fits = ground arith

overruns :
    (d : Pipe) (b : List Cell) (m : Mode) (u : User) (count : ℕ) (ws : List Wake)
    → d.buffer ≡ some b
    → (d.rp ≡ 0) × (d.wp ≡ 0)
    → length b < count
    → (count < d.buffersize) × (d.end ≡ d.buffersize) × (d.buffersize < int_max)
    → scull_p_write false m u count d ws ≡ fails undefined
unfolding scull_p_write
overruns d b m u count ws is start long fit =
    let size : spacefree d ≡ d.buffersize - 1 = empty_space d start.0 start.1 fit.2 (omega arith) in
    let n : write_count d count ≡ count =
      write_count-start d count start.0 start.1 (omega (arith, size)) (omega arith) in
    wait_loop-go is_full m.nonblock _ d ws (ground (arith, size))
    ∙ rw (is, n, start.1, write_bytes) (ground arith)

-- A pipe whose memory is shorter than the parameter at an opening.
open_overrun :
    (p_buffer : ℕ) (alloc : Bool) (m : Mode) (nonseekable : Ret) (dev : Pipe) (b : List Cell)
    (m' : Mode) (u : User) (count : ℕ) (ws : List Wake)
    → dev.buffer ≡ some b
    → p_buffer < int_max
    → length b < count
    → count < p_buffer
    → (let d = (scull_p_open p_buffer false alloc m nonseekable dev).0 in
        scull_p_write false m' u count d ws ≡ fails undefined)
unfolding scull_p_open open_buffer
open_overrun p_buffer alloc m nonseekable dev b m' u count ws is small long fit =
    rw (is, scull_p_open, open_buffer)
      (overruns _ b m' u count ws refl (refl, refl) long (fit, refl, small))

-- A pipe has memory of an earlier opening, and the direction bits of the commands are distinct. Any
-- caller, privileged or not, tells the driver by the ioctl SCULL_P_IOCTSIZE a size that is an `int`
-- and larger than that memory by at least two, and the pipe is opened again under it. Then a write
-- of more bytes than there is memory, and at most one less than the size, that is not interrupted
-- goes beyond the memory.
pub scull_p_open_overrun :
    (a : Abi) (e : IoctlEnv) (p : Params) (size : ℕ) (alloc : Bool) (m : Mode) (nonseekable : Ret)
    (dev : Pipe) (b : List Cell) (m' : Mode) (u : User) (count : ℕ) (ws : List Wake)
    → IsAbi a
    → dev.buffer ≡ some b
    → size < int_max
    → length b < count
    → count < size
    → (let p' = (scull_ioctl a e p (plain a 13) size).0 in
        let d = (scull_p_open p'.scull_p_buffer false alloc m nonseekable dev).0 in
        scull_p_write false m' u count d ws ≡ fails undefined)
unfolding act
scull_p_open_overrun a e p size alloc m nonseekable dev b m' u count ws h is small long fit =
    let told = by_action a h e p 13 size (omega arith) _ (action_of_all a h).13 in
    let same : size % 2 ^ 32 ≡ size = omega (arith, small) in
    rw (told, same) (open_overrun size alloc m nonseekable dev b m' u count ws is small long fit)

dec-inc : (b : Bool) (n : ℕ) → n + 1 < 2 ^ 32 → dec b (inc b n) ≡ n
dec-inc true n h = omega arith
dec-inc false n h = refl

releases :
    (m : Mode) (async : Bool) (d : Pipe) (b : List Cell) (r w : ℕ)
    → d.buffer ≡ some b
    → dec m.fmode_read d.nreaders ≡ r
    → dec m.fmode_write d.nwriters ≡ w
    → (let d' = (scull_p_release m async d).0 in
        (d'.nreaders ≡ r) × (d'.nwriters ≡ w) × ((d'.buffer ≡ none) ↔ ((r + w) % 2 ^ 32 ≡ 0)))
unfolding scull_p_release
releases m async d b r w is er ew =
    rw (er, ew)
      (elim (Bool-cases ((r + w) % 2 ^ 32 == 0)) [
        | inl e ↦ rw e (refl, refl, ((λ h. ground arith), λ h. refl))
        | inr e ↦ rw e (refl, refl, ((λ h. cc), λ h. ground arith))
      ])

-- If the counts of readers and writers do not overflow and the opening has memory, a release takes
-- back what the opening of the same file has counted, and frees the buffer exactly if no reader
-- and no writer is left.
pub scull_p_release-scull_p_open :
    (p_buffer : ℕ) (alloc : Bool) (m : Mode) (nonseekable : Ret) (dev : Pipe) (async : Bool)
    → dev.nreaders + 1 < 2 ^ 32
    → dev.nwriters + 1 < 2 ^ 32
    → open_buffer p_buffer alloc dev.buffer ≢ none
    → (let d =
          (scull_p_release m async (scull_p_open p_buffer false alloc m nonseekable dev).0).0 in
        (d.nreaders ≡ dev.nreaders)
        × (d.nwriters ≡ dev.nwriters)
        × ((d.buffer ≡ none) ↔ ((dev.nreaders + dev.nwriters) % 2 ^ 32 ≡ 0)))
unfolding scull_p_open
scull_p_release-scull_p_open p_buffer alloc m nonseekable dev async r w got =
    elim (Option-cases (open_buffer p_buffer alloc dev.buffer)) [
      | inl e ↦ absurd (got e)
      | inr (b, e) ↦
          rw (e, scull_p_open)
            (releases m async _ b dev.nreaders dev.nwriters refl
              (dec-inc m.fmode_read dev.nreaders r) (dec-inc m.fmode_write dev.nwriters w))
    ]

length-zero : (xs : List Cell) → length xs ≡ 0 → xs ≡ []
length-zero [] h = refl
length-zero (x ∷ xs) h = absurd (omega arith)

-- A well-formed pipe is reported readable exactly if something is queued, and writable exactly if
-- the queue is shorter than the buffer by more than one byte.
pub scull_p_poll_lem :
    (p : Pipe)
    → IsPipe p
    → (((scull_p_poll p).0 ≡ true) ↔ (queue p ≢ []))
      × (((scull_p_poll p).1 ≡ true) ↔ (length (queue p) + 1 < p.buffersize))
unfolding scull_p_poll
scull_p_poll_lem p is =
    let total = spacefree-queue p is in
    let space = spacefree_lem p is in
    (
      (
        (λ h e. absurd (ground (arith, total, space, ap length e, is.rp, is.wp, is.nonempty))),
        λ ne. elim (Bool-cases (p.rp == p.wp)) [
          | inl e ↦ absurd (ne (length-zero (queue p) (ground (arith, total, space, is.nonempty))))
          | inr e ↦ rw e
        ],
      ),
      ((λ h. ground (arith, total)), λ lt. ground (arith, total)),
    )
