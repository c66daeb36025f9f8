-- ===== src/Mmap/Pages.antt =====
-- How many hold the page of a file, while it is open and once it is released.
use linux_kernel_module_chea.Base.{
  ℕ, zero, suc, ◌+◌, ◌-◌, ◌<◌, ◌≡◌, refl, ◌∙◌, sym, ap, Bool, true, some, List, [], ◌∷◌, ◌++◌,
  length, replicate, overwrite, leb, arith, length-overwrite, length-replicate, some_inj,
  Bool-cases, inl, inr,
}
use linux_kernel_module_chea.Mmap.{
  buffer_size, Mapped, open_file, mmap, add_place, vm_fault, release, read, write,
}

-- The places of all mappings.
unfoldable pub total : List ℕ → ℕ
total [] = 0
total (n ∷ ns) = n + total ns

-- A process stores a byte through its mapping.
abbrev pub stored : (at byte : ℕ) → Mapped → Mapped
stored at byte m = record m {
  page = record m.page { bytes = overwrite m.page.bytes at (byte ∷ []) };
}

-- The kernel takes a mapping with `n` places away, and drops the page as often.
abbrev pub unmapped : (before after : List ℕ) (n : ℕ) → Mapped → Mapped
unmapped before after n m = record {
  page = record m.page { count = m.page.count - n };
  vmas = before ++ after;
}

-- What can happen to an open file: the operations of the module, in any order and with any outcome,
-- and what the processes and the kernel do on their own.
pub data Runs (start : Mapped) : Mapped → Type 0 where
  opened : Runs start start
  maps : (m : Mapped) → Runs start m → Runs start (mmap m)
  faults : (m : Mapped) (i : ℕ) → Runs start m → i < length m.vmas → Runs start (vm_fault i m)
  reads :
      (m : Mapped) (e : Bool) (len off : ℕ) → Runs start m → Runs start (read e len off m).mapped
  writes :
      (m : Mapped) (bytes : List ℕ) (e : Bool) (len off : ℕ)
      → Runs start m
      → Runs start (write (bytes, e) len off m).mapped
  stores : (m : Mapped) (at byte : ℕ) → Runs start m → Runs start (stored at byte m)
  unmaps :
      (m : Mapped) (before after : List ℕ) (n : ℕ)
      → Runs start m
      → m.vmas ≡ before ++ (n ∷ after)
      → Runs start (unmapped before after n m)

-- The module and each place of a mapping hold the page, and nobody else.
pub record IsHeld (page_size : ℕ) (m : Mapped) : Type 0 where
  pub held : m.page.count ≡ 1 + total m.vmas
  pub whole : length m.page.bytes ≡ page_size

total-add_place : (i : ℕ) (ns : List ℕ) → i < length ns → total (add_place i ns) ≡ 1 + total ns
unfolding total add_place
total-add_place i [] lt = absurd (omega (arith, lt))
total-add_place zero (n ∷ ns) lt = omega arith
total-add_place (suc i) (n ∷ ns) lt =
    let ih = total-add_place i ns (omega (arith, lt)) in omega (arith, ih)

total-append : (ms ns : List ℕ) → total (ms ++ ns) ≡ total ms + total ns
unfolding total
total-append [] ns = omega arith
total-append (m ∷ ms) ns = let ih = total-append ms ns in omega (arith, ih)

open_file-IsHeld :
    (page_size : ℕ) (start : Mapped)
    → open_file page_size true true ≡ some start
    → IsHeld page_size start
unfolding open_file total
open_file-IsHeld page_size start e = rw (sym (some_inj e)) (record {
  held = refl;
  whole = length-overwrite (replicate page_size 0) 0 _ ∙ length-replicate page_size 0;
})

mapped-read : (e : Bool) (len off : ℕ) (m : Mapped) → (read e len off m).mapped ≡ m
unfolding read
mapped-read e len off m = elim (Bool-cases (leb buffer_size off)) [
  | inl over ↦ rw (read, over) refl
  | inr on ↦ elim (Bool-cases e) [ inl f ↦ rw (read, on, f) refl | inr g ↦ rw (read, on, g) refl ]
]

-- However a file has been used since it was opened, its page is held once by the module and once for
-- each place that it has been mapped to, so it has not been freed and no process is left with a
-- freed page; it keeps its size.
pub Runs-IsHeld :
    (page_size : ℕ) (start m : Mapped)
    → open_file page_size true true ≡ some start
    → Runs start m
    → IsHeld page_size m
unfolding total mmap vm_fault write
Runs-IsHeld page_size start m e opened = open_file-IsHeld page_size start e
Runs-IsHeld page_size start m e (maps m' r) =
    let ih = Runs-IsHeld page_size start m' e r in
    record { held = omega (arith, ih.held); whole = ih.whole }
Runs-IsHeld page_size start m e (faults m' i r lt) =
    let ih = Runs-IsHeld page_size start m' e r in
    record { held = omega (arith, ih.held, total-add_place i m'.vmas lt); whole = ih.whole }
Runs-IsHeld page_size start m e (reads m' b len off r) =
    rw (mapped-read b len off m') (Runs-IsHeld page_size start m' e r)
Runs-IsHeld page_size start m e (writes m' bytes b len off r) =
    let ih = Runs-IsHeld page_size start m' e r in
    record { held = ih.held; whole = length-overwrite m'.page.bytes 0 _ ∙ ih.whole }
Runs-IsHeld page_size start m e (stores m' at byte r) =
    let ih = Runs-IsHeld page_size start m' e r in
    record { held = ih.held; whole = length-overwrite m'.page.bytes at (byte ∷ []) ∙ ih.whole }
Runs-IsHeld page_size start m e (unmaps m' before after n r same) =
    let ih = Runs-IsHeld page_size start m' e r in
    let sums = ap total same ∙ total-append before (n ∷ after) in
    record { held = omega (arith, ih.held, sums, total-append before after); whole = ih.whole }

-- Once a file has been used in any way and has no mapping left, `release` frees its page: nobody holds
-- it any more.
pub release-Runs :
    (page_size : ℕ) (start m : Mapped)
    → open_file page_size true true ≡ some start
    → Runs start m
    → m.vmas ≡ []
    → (release m).page.count ≡ 0
unfolding release total
release-Runs page_size start m e r none_left =
    let h = Runs-IsHeld page_size start m e r in
    let t = ap total none_left in omega (arith, h.held, t)
