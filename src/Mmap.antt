-- ===== src/Mmap.antt =====
-- kernel_modules/mmap.c: a file whose page is mapped into processes, too.
pub mod Pages
pub mod Contents
mod Tests
use linux_kernel_module_chea.Base.{
  ℕ, zero, suc, ◌+◌, ◌-◌, min, Bool, true, false, Option, none, some, List, [], ◌∷◌, ltb, leb,
  if◌then◌else◌, take, drop, length, replicate, overwrite, set,
}
use linux_kernel_module_chea.Kernel.{Ret, ok, err, undefined, fault}

abbrev pub buffer_size : ℕ
buffer_size = 4

-- A page of memory: its bytes, and how many hold it. It is free once nobody does.
pub record Page : Type 0 where
  pub bytes : List ℕ
  pub count : ℕ

-- A file of the module, with the page behind `info->data`; and the mappings of the file, each with
-- the number of places where the page stands in the tables of its process.
pub record Mapped : Type 0 where
  pub page : Page
  pub vmas : List ℕ

-- "asdf".
abbrev text : List ℕ
text = b'a' ∷ b's' ∷ b'd' ∷ b'f' ∷ []

-- `open`; `kmalloc` and `get_zeroed_page` are not tested. `none`: a null pointer is used.
unfoldable pub open_file : (page_size : ℕ) → (kmalloc get_zeroed_page : Bool) → Option Mapped
open_file page_size true true = some (record {
  page = record { bytes = overwrite (replicate page_size 0) 0 text; count = 1 };
  vmas = [];
})
open_file page_size true false = none
open_file page_size false get_zeroed_page = none

-- `mmap`: nothing is in the tables of the process yet.
unfoldable pub mmap : Mapped → Mapped
mmap m = record m { vmas = 0 ∷ m.vmas }

-- Mapping `i` has the page in one place more.
unfoldable pub add_place : (i : ℕ) → List ℕ → List ℕ
add_place i [] = []
add_place zero (n ∷ ns) = suc n ∷ ns
add_place (suc i) (n ∷ ns) = n ∷ add_place i ns

-- `vm_fault`, on the first access to a place of mapping `i`: `get_page`, and the kernel puts the page
-- there, whichever place it is.
unfoldable pub vm_fault : (i : ℕ) → Mapped → Mapped
unfolding add_place
vm_fault i m = record m {
  page = record m.page { count = m.page.count + 1 };
  vmas = add_place i m.vmas;
}

-- `release`: `free_page`. The kernel calls it once the file is closed and no mapping is left.
unfoldable pub release : Mapped → Mapped
release m = record m { page = record m.page { count = m.page.count - 1 } }

-- The outcome of a transfer: the file, `*off`, the result, and the bytes handed to the user.
pub record Moved : Type 0 where
  pub mapped : Mapped
  pub off : ℕ
  pub ret : Ret
  pub out : List ℕ

-- `faults`: whether `copy_to_user` leaves some bytes out.
unfoldable pub read : (faults : Bool) → (len off : ℕ) → Mapped → Moved
read faults len off m =
    let ret = min len (buffer_size - off) in
    let bytes = take ret (drop off m.page.bytes) in
    if leb buffer_size off
    then record { mapped = m; off = off; ret = ok 0; out = [] }
    else (if faults
        then record { mapped = m; off = off; ret = err fault; out = [] }
        else record { mapped = m; off = off + ret; ret = ok ret; out = bytes })

-- `from_user`: the bytes that `copy_from_user` has copied, and whether it has left some out. `*off` is
-- not used.
unfoldable pub write : (from_user : List ℕ × Bool) → (len off : ℕ) → Mapped → Moved
write (bytes, faults) len off m =
    let page = record m.page {
      bytes = overwrite m.page.bytes 0 (take (min len buffer_size) bytes);
    } in
    record {
      mapped = record m { page = page };
      off = off;
      ret = if faults then err fault else ok len;
      out = [];
    }
