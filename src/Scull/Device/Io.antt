-- ===== src/Scull/Device/Io.antt =====
-- `scull_open`, `scull_read`, `scull_write` and `scull_llseek` of kernel_modules/scull.c.
use linux_kernel_module_chea.Base.{
  ℕ, ◌+◌, ◌-◌, ◌%◌, ◌^◌, min, Bool, Option, none, some, List, [], ltb, leb, if◌then◌else◌, take,
  drop, get_elem?, get_or, set, replicate, overwrite, map,
}
use linux_kernel_module_chea.Kernel.{
  Cell, Allocs, later, User, Env, Ret, ok, err, undefined, restartsys, fault, nomem,
}
use linux_kernel_module_chea.Scull.Params.{Params}
use linux_kernel_module_chea.Scull.Device.Defs.{
  Block, Qset, Dev, Place, scull_trim, scull_follow, place,
}

-- The outcome of `scull_open`: the device, and the result.
unfoldable pub scull_open : Params → (truncate interrupted : Bool) → Dev → Dev × Ret
unfolding scull_trim
scull_open p truncate interrupted dev =
    if truncate
    then (if interrupted then (dev, err restartsys) else ((scull_trim p dev).0, ok 0))
    else (dev, ok 0)

-- The outcome of a transfer: the device and `*f_pos` after it, the result, and the bytes that a
-- read hands to the user.
pub record Done : Type 0 where
  pub dev : Dev
  pub f_pos : ℕ
  pub ret : Ret
  pub out : List Cell

abbrev pub stop : Dev → ℕ → Ret → Done
stop dev pos r = record { dev = dev; f_pos = pos; ret = r; out = [] }

-- `dptr->data[s_pos]`, where `dptr` is the set number `item`; `none` for a hole.
unfoldable pub block_at : List Qset → ℕ → ℕ → Option Block
block_at sets item s_pos = elim (get_or sets item none) [
  | none ↦ none
  | some bs ↦ get_or bs s_pos none
]

-- From the test for a hole on: clamp to the quantum, copy out, advance.
unfoldable pub read_block : Dev → User → Place → ℕ → ℕ → Option Block → Done
read_block dev u at count pos none = stop dev pos (ok 0)
read_block dev u at count pos (some b) =
    let n = min count (dev.quantum - at.q_pos) in
    let bytes = take n (drop at.q_pos b) in
    if u.copy_to_user bytes
    then stop dev pos (err fault)
    else record { dev = dev; f_pos = pos + n; ret = ok n; out = bytes }

-- The walk to the set, which may lengthen the list, and the read behind it.
unfoldable pub read_at : Dev → Env → ℕ → ℕ → Option Place → Done
unfolding scull_follow read_block block_at
read_at dev e count pos none = stop dev pos undefined
read_at dev e count pos (some at) =
    let f = scull_follow dev.data' at.item e.allocs in
    let dev' = record dev { data' = f.sets } in
    if f.found
    then read_block dev' e.user at count pos (block_at f.sets at.item at.s_pos)
    else stop dev' pos (ok 0)

-- `count` after the test against the end of the data; the sum wraps as a `size_t`.
unfoldable pub clamp_to_size : ℕ → ℕ → ℕ → ℕ
clamp_to_size size pos count = if ltb size ((pos + count) % 2 ^ 64) then size - pos else count

-- `scull_read`, of a call on a device whose geometry no other changes while it waits for the lock. The
-- geometry is read before that; Device/Late.antt has the general case.
unfoldable pub scull_read : Dev → Env → ℕ → ℕ → Done
unfolding read_at place clamp_to_size
scull_read dev e count pos =
    if e.interrupted
    then stop dev pos (err restartsys)
    else (if leb dev.size pos
        then stop dev pos (ok 0)
        else read_at dev e (clamp_to_size dev.size pos count) pos (place dev.quantum dev.qset pos))

-- What `scull_write` finds or makes of the set's array: the array and the outcomes left, or `none`.
unfoldable pub ensure_array : ℕ → Qset → Allocs → Option (List (Option Block)) × Allocs
ensure_array qset (some bs) a = (some bs, a)
ensure_array qset none a = (if a 0 then some (replicate qset none) else none, later a)

-- The quantum itself; fresh memory holds nothing.
unfoldable pub ensure_block : ℕ → Option Block → Allocs → Option Block
ensure_block quantum (some b) a = some b
ensure_block quantum none a = if a 0 then some (replicate quantum none) else none

-- Clamp to the quantum, copy in, advance and update the size. `bs` is the set's array.
unfoldable pub write_block : Dev → User → Place → ℕ → ℕ → List (Option Block) → Block → Done
write_block dev u at count pos bs b =
    let n = min count (dev.quantum - at.q_pos) in
    let (bytes, failed) = u.copy_from_user n in
    let b' = overwrite b at.q_pos (map some bytes) in
    let dev' = record dev { data' = set dev.data' at.item (some (set bs at.s_pos (some b'))) } in
    if failed then stop dev' pos (err fault) else record {
      dev = record dev' { size = if ltb dev.size (pos + n) then pos + n else dev.size };
      f_pos = pos + n;
      ret = ok n;
      out = [];
    }

-- From the quantum on, once the set has its array.
unfoldable pub write_array : Dev → Env → Place → ℕ → ℕ → List (Option Block) → Allocs → Done
unfolding ensure_block write_block block_at
write_array dev e at count pos bs a =
    let dev' = record dev { data' = set dev.data' at.item (some bs) } in
    elim (ensure_block dev.quantum (block_at dev'.data' at.item at.s_pos) a) [
      | none ↦ stop dev' pos (err nomem)
      | some b ↦ write_block dev' e.user at count pos bs b
    ]

-- From the array on, once the set is reached.
unfoldable pub write_set : Dev → Env → Place → ℕ → ℕ → Qset → Allocs → Done
unfolding ensure_array write_array
write_set dev e at count pos q a =
    let (array, a') = ensure_array dev.qset q a in
    elim array [ none ↦ stop dev pos (err nomem) | some bs ↦ write_array dev e at count pos bs a' ]

unfoldable pub write_at : Dev → Env → ℕ → ℕ → Option Place → Done
unfolding scull_follow write_set
write_at dev e count pos none = stop dev pos undefined
write_at dev e count pos (some at) =
    let f = scull_follow dev.data' at.item e.allocs in
    let dev' = record dev { data' = f.sets } in
    if f.found
    then elim (get_elem? f.sets at.item) [
      | none ↦ stop dev' pos undefined
      | some q ↦ write_set dev' e at count pos q f.left
    ]
    else stop dev' pos (err nomem)

-- `scull_write`, of a call on a device whose geometry no other changes while it waits for the lock.
unfoldable pub scull_write : Dev → Env → ℕ → ℕ → Done
unfolding write_at place
scull_write dev e count pos =
    if e.interrupted
    then stop dev pos (err restartsys)
    else write_at dev e count pos (place dev.quantum dev.qset pos)
