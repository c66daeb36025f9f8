-- ===== src/Fops.antt =====
-- kernel_modules/fops.c: a file of four bytes.
pub mod Laws
mod Tests
use linux_kernel_module_chea.Base.{
  ℕ, ◌+◌, ◌-◌, min, List, [], ltb, leb, if◌then◌else◌, take, drop, overwrite, map, some,
}
use linux_kernel_module_chea.Kernel.{Cell, User, Ret, ok, err, fault, nospc}

-- BUFLEN.
abbrev pub buflen : ℕ
buflen = 4

-- The outcome of a transfer: the buffer, `*off`, the result, and the bytes handed to the user.
pub record Moved : Type 0 where
  pub data' : List Cell
  pub off : ℕ
  pub ret : Ret
  pub out : List Cell

abbrev moved : List Cell → ℕ → Ret → List Cell → Moved
moved d off r out = record { data' = d; off = off; ret = r; out = out }

-- `read`.
unfoldable pub read_fixed : User → (len off : ℕ) → List Cell → Moved
read_fixed u len off d =
    let n = min len (buflen - off) in
    let bytes = take n (drop off d) in
    if leb buflen off
    then moved d off (ok 0) []
    else (if u.copy_to_user bytes
        then moved d off (err fault) []
        else moved d (off + n) (ok n) bytes)

-- `write`.
unfoldable pub write_fixed : User → (len off : ℕ) → List Cell → Moved
write_fixed u len off d =
    let (bytes, failed) = u.copy_from_user len in
    let d' = overwrite d off (map some bytes) in
    if leb buflen off
    then moved d off (ok 0) []
    else (if ltb (buflen - off) len
        then moved d off (err nospc) []
        else (if failed then moved d' off (err fault) [] else moved d' (off + len) (ok len) []))
