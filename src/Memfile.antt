-- ===== src/Memfile.antt =====
-- kernel_modules/memfile.c: a file in a growing array.
pub mod Bytes
pub mod Transfer
pub mod RoundTrip
mod Tests
use linux_kernel_module_chea.Base.{
  ℕ, ◌+◌, ◌-◌, ◌*◌, ◌%◌, ◌^◌, min, Bool, true, false, Option, none, some, List, [], ◌++◌, ltb, leb,
  if◌then◌else◌, take, drop, length, replicate, overwrite, map,
}
use linux_kernel_module_chea.Kernel.{Cell, User, Ret, ok, err, undefined, fault, nomem, nospc}

-- `dyn_arr_t`. `buf` is `none` for a null pointer, and is as long as the memory behind it.
pub record DynArr : Type 0 where
  pub buf : Option (List Cell)
  pub used : ℕ
  pub size : ℕ

-- `dyn_arr_init`; `kvzalloc` gives zeros.
unfoldable pub dyn_arr_init : (alloc : Bool) → ℕ → DynArr → DynArr × Ret
dyn_arr_init alloc size a =
    if alloc
    then (record { buf = some (replicate size (some 0)); used = 0; size = size }, ok 0)
    else (record a { buf = none }, err nomem)

-- `kvrealloc` keeps what fits and does not set the rest.
abbrev pub resized : ℕ → List Cell → List Cell
resized n b = take n b ++ replicate (n - length b) none

-- The part of `dyn_arr_reserve` that makes room for `new_used` bytes: the memory to go on with and
-- its size, or `none` if there is none to be had.
unfoldable pub grow : (alloc : Bool) → ℕ → List Cell → (size : ℕ) → Option (List Cell × ℕ)
grow alloc new_used b size =
    let new_size = new_used * 2 % 2 ^ 64 in
    if ltb size new_used
    then (if alloc then some (resized new_size b, new_size) else none)
    else some (b, size)

-- The part that clears a gap and moves the end. `buf` has been overwritten where `grow` has failed.
unfoldable pub fill_gap : (off new_used : ℕ) → DynArr → Option (List Cell × ℕ) → DynArr × Bool
fill_gap off new_used a none = (record a { buf = none }, false)
fill_gap off new_used a (some (b, size)) = (
  record {
    buf =
        some (if ltb a.used off then overwrite b a.used (replicate (off - a.used) (some 0)) else b);
    used = if ltb a.used new_used then new_used else a.used;
    size = size;
  },
  true,
)

-- `dyn_arr_reserve`, on an array with `b` behind its pointer, and whether it succeeds; sums wrap as a
-- `size_t`. Nothing stands behind a null pointer, which `kvrealloc` takes, too.
unfoldable pub dyn_arr_reserve : (alloc : Bool) → (off len : ℕ) → List Cell → DynArr → DynArr × Bool
unfolding grow fill_gap
dyn_arr_reserve alloc off len b a =
    let new_used = (off + len) % 2 ^ 64 in fill_gap off new_used a (grow alloc new_used b a.size)

unfoldable pub dyn_arr_free : DynArr → DynArr
dyn_arr_free a = record { buf = none; used = 0; size = 0 }

-- The array and `f_pos` after `open`.
unfoldable pub open_file : (truncate append : Bool) → DynArr → (f_pos : ℕ) → DynArr × ℕ
open_file truncate append a f_pos =
    if truncate
    then (record a { used = 0 }, f_pos)
    else (if append then (a, a.used) else (a, f_pos))

-- The outcome of a transfer: the array, `*off`, the result, and the bytes handed to the user.
pub record Moved : Type 0 where
  pub data' : DynArr
  pub off : ℕ
  pub ret : Ret
  pub out : List Cell

abbrev moved : DynArr → ℕ → Ret → List Cell → Moved
moved a off r out = record { data' = a; off = off; ret = r; out = out }

-- `read`, with what stands behind the pointer.
unfoldable pub read_buf : User → (len off : ℕ) → DynArr → Option (List Cell) → Moved
read_buf u len off a none = moved a off undefined []
read_buf u len off a (some b) =
    let n = min len (a.used - off) in
    let bytes = take n (drop off b) in
    if ltb (length b) (off + n)
    then moved a off undefined []
    else (if u.copy_to_user bytes
        then moved a off (err fault) []
        else moved a (off + n) (ok n) bytes)

unfoldable pub read : User → (len off : ℕ) → DynArr → Moved
unfolding read_buf
read u len off a = if leb a.used off then moved a off (ok 0) [] else read_buf u len off a a.buf

-- The copy from the user, once there is room.
unfoldable pub store : User → (len off : ℕ) → DynArr → Option (List Cell) → Moved
store u len off a none = moved a off undefined []
store u len off a (some b) =
    let (bytes, failed) = u.copy_from_user len in
    let a' = record a { buf = some (overwrite b off (map some bytes)) } in
    if ltb (length b) (off + len)
    then moved a off undefined []
    else (if failed then moved a' off (err fault) [] else moved a' (off + len) (ok len) [])

-- `write`, with what stands behind the pointer. Where that is null and there is nothing to reserve, the
-- null pointer itself is used.
unfoldable pub write_buf :
    (alloc : Bool) → User → (len off : ℕ) → DynArr → Option (List Cell) → Moved
unfolding dyn_arr_reserve store
write_buf alloc u len off a none =
    let (a', done) = dyn_arr_reserve alloc off len [] a in
    if ltb a.size ((off + len) % 2 ^ 64)
    then (if done then store u len off a' a'.buf else moved a' off (err nospc) [])
    else moved a off undefined []
write_buf alloc u len off a (some b) =
    let (a', done) = dyn_arr_reserve alloc off len b a in
    if done then store u len off a' a'.buf else moved a' off (err nospc) []

unfoldable pub write : (alloc : Bool) → User → (len off : ℕ) → DynArr → Moved
unfolding write_buf
write alloc u len off a = write_buf alloc u len off a a.buf
