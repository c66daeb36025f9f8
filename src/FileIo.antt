-- ===== src/FileIo.antt =====
-- lkmc/file_io.h: the size of an open file, and the whole of a file in memory.
pub mod Contents
mod Tests
use linux_kernel_module_chea.Base.{
  ℕ, zero, suc, ◌+◌, Bool, true, false, not, Option, none, some, List, [], length, ◌==◌,
  if◌then◌else◌,
}

-- The calls of the C library on an open stream; each says whether it fails, and leaves the stream in
-- some state. Sizes are below the largest `long`.
pub record Stdio : Type 1 where
  pub File : Type 0
  pub ftell : File → Option ℕ × File
  pub fseek_end : File → Bool × File
  pub fseek_set : ℕ → File → Bool × File
  pub fread : ℕ → File → List ℕ × File
  pub fclose : File → Bool

-- What `lkmc_file_read` returns; whether the stream is still open behind it, and whether memory is
-- allocated that nothing points to.
pub record FileRead : Type 0 where
  pub buffer : Option (List ℕ)
  pub left_open : Bool
  pub leaked : Bool

abbrev gives_up : (left_open leaked : Bool) → FileRead
gives_up left_open leaked = record { buffer = none; left_open = left_open; leaked = leaked }

module _ (io : Stdio) where
  -- The part behind the second `ftell`: the position is restored.
  unfoldable pub restore : (oldpos : ℕ) → Option ℕ × io.File → Option ℕ × io.File
  restore oldpos (none, f) = (none, f)
  restore oldpos (some size, f) =
      let (set, f') = io.fseek_set oldpos f in (if set then some size else none, f')

  unfoldable pub size_from : Option ℕ × io.File → Option ℕ × io.File
  unfolding restore
  size_from (none, f) = (none, f)
  size_from (some oldpos, f) =
      let (at_end, f') = io.fseek_end f in
      if at_end then restore oldpos (io.ftell f') else (none, f')

  -- `none` stands for `-1L`.
  unfoldable pub lkmc_fget_file_size : io.File → Option ℕ × io.File
  unfolding size_from
  lkmc_fget_file_size f = size_from (io.ftell f)

  -- The part behind `malloc`.
  unfoldable pub read_and_close : (fsize : ℕ) → io.File → FileRead
  read_and_close fsize f =
      let (bytes, f') = io.fread fsize f in
      if length bytes == fsize
      then (if io.fclose f'
          then record { buffer = some bytes; left_open = false; leaked = false }
          else gives_up false true)
      else gives_up true true

  unfoldable pub read_sized : (malloc : Bool) → Option ℕ × io.File → FileRead
  unfolding read_and_close
  read_sized malloc (none, f) = gives_up true false
  read_sized malloc (some fsize, f) = if malloc then read_and_close fsize f else gives_up true false

  -- `opened`: what `fopen` gives. `none` stands for a null pointer.
  unfoldable pub lkmc_file_read : (opened : Option io.File) → (malloc : Bool) → FileRead
  unfolding lkmc_fget_file_size read_sized
  lkmc_file_read none malloc = gives_up false false
  lkmc_file_read (some f) malloc = read_sized malloc (lkmc_fget_file_size f)
