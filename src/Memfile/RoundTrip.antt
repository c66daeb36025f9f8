-- ===== src/Memfile/RoundTrip.antt =====
-- What is written to the file is read back, and what happens without memory.
use linux_kernel_module_chea.Base.{
  ℕ, ◌+◌, ◌-◌, ◌%◌, ◌^◌, ◌<◌, ◌≡◌, refl, min, Bool, true, false, none, some, ltb, leb, length, map,
  arith, get_or, length-map, ◌∙◌, sym, list_ext_or,
}
use linux_kernel_module_chea.Kernel.{User, FillsBuffer, ok, err, undefined, nospc, ok_inj}
use linux_kernel_module_chea.Memfile.{DynArr, Moved, dyn_arr_reserve, read, write, write_buf}
use linux_kernel_module_chea.Memfile.Transfer.{
  IsFile, contents, Wrote, Writes, wrote, faulted, no_room, write-Writes, Reads, returned,
  faulted_read, read-Reads,
}

gives_back :
    (u : User) (len off : ℕ) (a a' : DynArr) (r' : Moved) (m : ℕ)
    → FillsBuffer u
    → Wrote u len off a a'
    → Reads len off a' r'
    → r'.ret ≡ ok m
    → (m ≡ len) × (r'.out ≡ map some (u.copy_from_user len).0)
gives_back u len off a a' r' m fill w faulted_read h = cc
gives_back u len off a a' r' m fill w (returned ret off' same short bytes) h =
    let all : min len (a'.used - off) ≡ len = omega (arith, w.used) in
    let given = map some (u.copy_from_user len).0 in
    let n : length given ≡ len = length-map (u.copy_from_user len).0 some ∙ fill.fills len in
    (
      ok_inj (sym h ∙ ret) ∙ all,
      list_ext_or r'.out given none (short ∙ all ∙ sym n) (λ k lt.
          let there : get_or r'.out k none ≡ contents a' (off + k) =
            bytes k ∙ ground (arith, short) in
          let index : off + k - off ≡ k = omega arith in
          there ∙ w.bytes (off + k) ∙ rw index (ground (arith, short, all))),
    )

writes_then_reads :
    (u u' : User) (len off : ℕ) (a : DynArr) (r : Moved) (n m : ℕ)
    → FillsBuffer u
    → Writes u len off a r
    → r.ret ≡ ok n
    → (read u' len off r.data').ret ≡ ok m
    → (m ≡ len) × ((read u' len off r.data').out ≡ map some (u.copy_from_user len).0)
writes_then_reads u u' len off a r n m fill (wrote ret at w) h h' =
    gives_back u len off a r.data' _ m fill w (read-Reads u' len off r.data' w.file) h'
writes_then_reads u u' len off a r n m fill (faulted ret at w) h h' = cc
writes_then_reads u u' len off a r n m fill (no_room ret at lost) h h' = cc

-- On a file with its memory, and with an end below 2 ^ 63: after a write that returns, a read of
-- as many bytes at the same position that does not fault returns exactly the bytes that the write
-- took from the user.
pub read-write :
    (alloc : Bool) (u u' : User) (len off : ℕ) (a : DynArr) (n m : ℕ)
    → FillsBuffer u
    → IsFile a
    → off + len < 2 ^ 63
    → (write alloc u len off a).ret ≡ ok n
    → (read u' len off (write alloc u len off a).data').ret ≡ ok m
    → (m ≡ len)
      × ((read u' len off (write alloc u len off a).data').out ≡ map some (u.copy_from_user len).0)
read-write alloc u u' len off a n m fill is small h h' =
    writes_then_reads u u' len off a _ n m fill (write-Writes alloc u len off a fill is small) h h'

-- A write that needs more memory than there is fails with `nospc`; then any read from the data
-- that the file has held goes through a null pointer.
pub write_nomem_breaks_read :
    (u u' : User) (len off len' off' : ℕ) (a : DynArr)
    → IsFile a
    → a.size < off + len
    → off + len < 2 ^ 64
    → off' < a.used
    → (let r = write false u len off a in
        (r.ret ≡ err nospc) × ((read u' len' off' r.data').ret ≡ undefined))
unfolding read write dyn_arr_reserve
write_nomem_breaks_read u u' len off len' off' a is short small inside =
    let wrap : (off + len) % 2 ^ 64 ≡ off + len = omega arith in
    let less : ltb a.size (off + len) ≡ true = ground arith in
    let there : leb a.used off' ≡ false = ground arith in
    rw (is.array.buf, write_buf, wrap, less, there) (refl, refl)
