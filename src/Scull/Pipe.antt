-- ===== src/Scull/Pipe.antt =====
-- The pipe device of kernel_modules/scull.c: a circular buffer between readers and writers.
pub mod Queue
pub mod Wait
pub mod Read
pub mod Append
pub mod Write
pub mod History
pub mod Open
mod Tests
use linux_kernel_module_chea.Base.{
  ℕ, ◌+◌, ◌-◌, ◌%◌, ◌^◌, min, Bool, true, false, not, ◌&&◌, Option, none, some, List, [], ◌∷◌, ltb,
  leb, ◌==◌, if◌then◌else◌, length, take, drop, replicate, overwrite, map,
}
use linux_kernel_module_chea.Kernel.{
  Cell, User, Ret, ok, err, undefined, restartsys, nomem, again, fault,
}
use linux_kernel_module_chea.Scull.Params.{int_max}

-- `struct scull_pipe`. The pointers into the buffer are offsets from its start; `buffer` is `none`
-- for a null pointer, and is as long as the memory that was allocated. `async_queue` says whether a
-- reader asked for signals. Ints are their patterns.
pub record Pipe : Type 0 where
  pub buffer : Option (List Cell)
  pub end : ℕ
  pub buffersize : ℕ
  pub rp : ℕ
  pub wp : ℕ
  pub nreaders : ℕ
  pub nwriters : ℕ
  pub async_queue : Bool

-- The `f_mode` and `f_flags` of an open file that matter here.
pub record Mode : Type 0 where
  pub fmode_read : Bool
  pub fmode_write : Bool
  pub nonblock : Bool

-- An `int` as the `size_t` argument of `kmalloc`: negative numbers become huge.
abbrev pub to_size : ℕ → ℕ
to_size w = if ltb w int_max then w else w + (2 ^ 64 - 2 ^ 32)

abbrev pub inc : Bool → ℕ → ℕ
inc b n = if b then (n + 1) % 2 ^ 32 else n

abbrev pub dec : Bool → ℕ → ℕ
dec b n = if b then (n + 2 ^ 32 - 1) % 2 ^ 32 else n

-- The buffer that `scull_p_open` goes on with.
unfoldable pub open_buffer : (p_buffer : ℕ) (alloc : Bool) → Option (List Cell) → Option (List Cell)
open_buffer p_buffer alloc none = if alloc then some (replicate (to_size p_buffer) none) else none
open_buffer p_buffer alloc (some b) = some b

-- `scull_p_open`; `nonseekable_open`'s result is the last argument. A negative size puts the end of
-- the buffer before its start.
unfoldable pub scull_p_open :
    (p_buffer : ℕ) (interrupted alloc : Bool) (m : Mode) (nonseekable : Ret) → Pipe → Pipe × Ret
unfolding open_buffer
scull_p_open p_buffer interrupted alloc m nonseekable dev =
    if interrupted then (dev, err restartsys) else elim (open_buffer p_buffer alloc dev.buffer) [
      | none ↦ (dev, err nomem)
      | some b ↦ (
        record dev {
          buffer = some b;
          end = p_buffer;
          buffersize = p_buffer;
          rp = 0;
          wp = 0;
          nreaders = inc m.fmode_read dev.nreaders;
          nwriters = inc m.fmode_write dev.nwriters;
        },
        if ltb p_buffer int_max then nonseekable else undefined,
      )
    ]

-- `scull_p_release`; `async` is the queue that `fasync_helper` leaves.
unfoldable pub scull_p_release : (m : Mode) (async : Bool) → Pipe → Pipe × Ret
scull_p_release m async dev =
    let readers = dec m.fmode_read dev.nreaders in
    let writers = dec m.fmode_write dev.nwriters in
    let dev' = record dev { nreaders = readers; nwriters = writers; async_queue = async } in
    (if (readers + writers) % 2 ^ 32 == 0 then record dev' { buffer = none } else dev', ok 0)

-- How a wait ends: by a signal, by a signal while the lock is taken again, or with the device as
-- the others have left it when the lock is held again.
pub data Wake : Type 0 where
  signal : Wake
  lock_fails : Wake
  woken : Pipe → Wake

-- The outcome of a transfer: `asleep` is a call that still waits, `fails` one that ends without
-- touching the device, and `done` gives the device, the result, the bytes handed to the user, and
-- whether asynchronous readers are signalled.
pub data Outcome : Type 0 where
  asleep : Outcome
  fails : Ret → Outcome
  done : Pipe → Ret → List Cell → (signals : Bool) → Outcome

abbrev pub on_wake : Wake → (Pipe → Outcome) → Outcome
on_wake signal k = fails (err restartsys)
on_wake lock_fails k = fails (err restartsys)
on_wake (woken d) k = k d

-- The loops of `scull_p_read` and `scull_getwritespace`: as long as `stuck` holds, give the lock
-- up and wait; then go on with the device as it is.
unfoldable pub wait_loop :
    (stuck : Pipe → Bool) (nonblock : Bool) → (Pipe → Outcome) → Pipe → List Wake → Outcome
wait_loop stuck nonblock k dev [] =
    if stuck dev then (if nonblock then fails (err again) else asleep) else k dev
wait_loop stuck nonblock k dev (w ∷ ws) =
    let rest = on_wake w (λ d. wait_loop stuck nonblock k d ws) in
    if stuck dev then (if nonblock then fails (err again) else rest) else k dev

-- How many bytes to read: up to the write pointer, or up to the end of the buffer where that has
-- wrapped.
unfoldable pub read_count : Pipe → ℕ → ℕ
read_count dev count =
    if ltb dev.rp dev.wp then min count (dev.wp - dev.rp) else min count (dev.end - dev.rp)

-- A pointer that has moved on by `n`, back at the start if that is the end.
abbrev pub advance : Pipe → ℕ → ℕ → ℕ
advance dev p n = if p + n == dev.end then 0 else p + n

-- `scull_p_read` behind its wait. An access outside of the allocated memory is undefined.
unfoldable pub read_bytes : User → ℕ → Pipe → Option (List Cell) → Outcome
read_bytes u n dev none = fails undefined
read_bytes u n dev (some b) =
    let bytes = take n (drop dev.rp b) in
    if ltb (length b) (dev.rp + n)
    then fails undefined
    else (if u.copy_to_user bytes
        then fails (err fault)
        else done (record dev { rp = advance dev dev.rp n }) (ok n) bytes false)

abbrev pub is_empty : Pipe → Bool
is_empty dev = dev.rp == dev.wp

-- `scull_p_read`.
unfoldable pub scull_p_read : (interrupted : Bool) → Mode → User → ℕ → Pipe → List Wake → Outcome
unfolding wait_loop read_bytes read_count
scull_p_read interrupted m u count dev ws =
    if interrupted
    then fails (err restartsys)
    else wait_loop is_empty m.nonblock (λ d. read_bytes u (read_count d count) d d.buffer) dev ws

-- `spacefree`, as the `size_t` that it is used as; -1 for a buffer of no bytes.
unfoldable pub spacefree : Pipe → ℕ
spacefree dev =
    if dev.rp == dev.wp
    then (dev.buffersize + 2 ^ 64 - 1) % 2 ^ 64
    else ((dev.rp + dev.buffersize - dev.wp) % dev.buffersize + 2 ^ 64 - 1) % 2 ^ 64

abbrev pub is_full : Pipe → Bool
is_full dev = spacefree dev == 0

-- How many bytes to accept: up to the end of the buffer, or up to one before the read pointer.
unfoldable pub write_count : Pipe → ℕ → ℕ
unfolding spacefree
write_count dev count =
    let room = min count (spacefree dev) in
    if leb dev.rp dev.wp then min room (dev.end - dev.wp) else min room (dev.rp - dev.wp - 1)

-- `scull_p_write` behind its wait.
unfoldable pub write_bytes : User → ℕ → Pipe → Option (List Cell) → Outcome
write_bytes u n dev none = fails undefined
write_bytes u n dev (some b) =
    let (bytes, failed) = u.copy_from_user n in
    let dev' = record dev { buffer = some (overwrite b dev.wp (map some bytes)) } in
    if ltb (length b) (dev.wp + n)
    then fails undefined
    else (if failed
        then done dev' (err fault) [] false
        else done (record dev' { wp = advance dev dev.wp n }) (ok n) [] dev.async_queue)

-- `scull_p_write`.
unfoldable pub scull_p_write : (interrupted : Bool) → Mode → User → ℕ → Pipe → List Wake → Outcome
unfolding wait_loop write_bytes write_count
scull_p_write interrupted m u count dev ws =
    if interrupted
    then fails (err restartsys)
    else wait_loop is_full m.nonblock (λ d. write_bytes u (write_count d count) d d.buffer) dev ws

-- `scull_p_poll`: whether the mask has the bits for reading, and those for writing.
unfoldable pub scull_p_poll : Pipe → Bool × Bool
unfolding spacefree
scull_p_poll dev = (not (dev.rp == dev.wp), not (spacefree dev == 0))
