-- ===== src/Seek.antt =====
-- The llseek methods of kernel_modules/scull.c, kernel_modules/memfile.c and kernel_modules/fops.c,
-- which differ only in where the data ends.
use linux_kernel_module_chea.Base.{
  ℕ, ◌+◌, ◌-◌, ◌%◌, ◌^◌, ◌<◌, ◌≡◌, Option, none, some, ◌&&◌, leb, ◌==◌, if◌then◌else◌, arith, ltb,
}
use linux_kernel_module_chea.Kernel.{Ret, ok, err, inval}

-- The switch on `whence`. A `loff_t` is its 64-bit pattern, and sums wrap.
unfoldable pub new_pos : (end f_pos off whence : ℕ) → Option ℕ
new_pos end f_pos off whence =
    if whence == 0
    then some off
    else (if whence == 1
        then some ((f_pos + off) % 2 ^ 64)
        else (if whence == 2 then some ((end + off) % 2 ^ 64) else none))

-- The position after the call, and the result. The patterns from 2 ^ 63 on are negative.
unfoldable pub llseek : (end f_pos off whence : ℕ) → ℕ × Ret
unfolding new_pos
llseek end f_pos off whence = elim (new_pos end f_pos off whence) [
  | none ↦ (f_pos, err inval)
  | some p ↦ if leb (2 ^ 63) p then (f_pos, err inval) else (p, ok p)
]

-- What `off` is added to.
abbrev pub origin : (end f_pos whence : ℕ) → ℕ
origin end f_pos whence = if whence == 0 then 0 else (if whence == 1 then f_pos else end)

-- With the end of the data, the position and the distance `d` below 2 ^ 63, and `d` positive: a
-- seek forward by `d` goes to the origin plus `d` if that is a position, and one back by `d` to
-- the origin minus `d` if the origin is that far from the start. Otherwise, and for an unknown
-- `whence`, it fails and the position stays.
pub llseek_lem :
    (end f_pos d whence : ℕ)
    → end < 2 ^ 63
    → f_pos < 2 ^ 63
    → 0 < d
    → d < 2 ^ 63
    → (let o = origin end f_pos whence in
        (llseek end f_pos d whence ≡ (
          if leb whence 2 && ltb (o + d) (2 ^ 63) then (o + d, ok (o + d)) else (f_pos, err inval)))
        × (llseek end f_pos (2 ^ 64 - d) whence
            ≡ (if leb whence 2 && leb d o then (o - d, ok (o - d)) else (f_pos, err inval))))
unfolding llseek
llseek_lem end f_pos d whence he hp pos hd = (ground arith, ground arith)
