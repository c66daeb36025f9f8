-- ===== src/Mmap/Contents.antt =====
-- What a read finds in the file.
use linux_kernel_module_chea.Base.{
  ℕ, ◌+◌, ◌-◌, min, ◌≤◌, ◌≡◌, refl, ◌∙◌, ap, true, false, Option, none, List, length, overwrite,
  take, drop, get_elem?, ltb, leb, if◌then◌else◌, arith, Bool-cases, inl, inr, get_elem?-take_if,
  get_elem?-drop, get_elem?-overwrite, take_whole,
}
use linux_kernel_module_chea.Kernel.{ok}
use linux_kernel_module_chea.Mmap.{buffer_size, Mapped, read, write}

-- A read that succeeds gives what stands in the page, up to the end of the file.
read-page :
    (len pos : ℕ) (m : Mapped)
    → let r = read false len pos m in
      (r.ret ≡ ok (min len (buffer_size - pos)))
      × (r.out ≡ take (min len (buffer_size - pos)) (drop pos m.page.bytes))
unfolding read
read-page len pos m = elim (Bool-cases (leb buffer_size pos)) [
  | inl over ↦
      let e : min len (buffer_size - pos) ≡ 0 = ground (arith, over) in rw (over, e) (refl, refl)
  | inr on ↦ rw on (refl, refl)
]

get_elem?-write :
    (m : Mapped) (bytes : List ℕ) (len i : ℕ)
    → buffer_size ≤ length m.page.bytes
    → length bytes ≡ min len buffer_size
    → get_elem? (overwrite m.page.bytes 0 (take (min len buffer_size) bytes)) i
      ≡ (if ltb i (length bytes) then get_elem? bytes i else get_elem? m.page.bytes i)
get_elem?-write m bytes len i big size =
    let e = take_whole (min len buffer_size) bytes (omega (arith, size)) in
    let o = get_elem?-overwrite m.page.bytes 0 bytes i (omega (arith, size, big)) in
    let first : leb 0 i ≡ true = ground arith in
    let sum : 0 + length bytes ≡ length bytes = omega arith in
    let place : i - 0 ≡ i = omega arith in rw e (rw (first, sum, place) at o)

-- If a `write` copies every byte in, a `read` that succeeds from any position finds, for each place of
-- the file, what was written there, and behind the written bytes what stood there before; it ends
-- at the fourth byte. The `write` starts at the start of the file whatever its own position is, and
-- returns its length, also where it has stored only four bytes of it.
pub get_elem?-read-write :
    (m : Mapped) (bytes : List ℕ) (len off len' pos : ℕ)
    → buffer_size ≤ length m.page.bytes
    → length bytes ≡ min len buffer_size
    → let w = write (bytes, false) len off m in
      let r = read false len' pos w.mapped in
      ((w.ret ≡ ok len) × (r.ret ≡ ok (min len' (buffer_size - pos))))
      × ((k : ℕ)
          → get_elem? r.out k ≡ (
              if ltb k (min len' (buffer_size - pos))
              then (if ltb (pos + k) (length bytes)
                  then get_elem? bytes (pos + k)
                  else get_elem? m.page.bytes (pos + k))
              else none))
unfolding write
get_elem?-read-write m bytes len off len' pos big size =
    let w = write (bytes, false) len off m in
    let p = read-page len' pos w.mapped in
    let n = min len' (buffer_size - pos) in
    (
      (refl, p.0),
      λ k.
          ap (λ (xs : List ℕ). get_elem? xs k) p.1
          ∙ get_elem?-take_if n (drop pos w.mapped.page.bytes) k
          ∙ ap (λ (o : Option ℕ). if ltb k n then o else none)
              (get_elem?-drop pos w.mapped.page.bytes k
                ∙ get_elem?-write m bytes len (pos + k) big size),
    )
