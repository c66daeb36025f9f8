-- ===== src/Scull/Device/RoundTrip.antt =====
-- What is written to a bare device is what is read back.
use linux_kernel_module_chea.Base.{
  max, ℕ, ◌+◌, ◌-◌, ◌≤◌, ◌<◌, ◌≡◌, ◌^◌, length-map, length-take, get_or-take, replicate,
  get_or-replicate, take, inl, inr, some, none, arith, get_or, map, ◌∙◌, sym, length, List, [], ◌∷◌,
  zero, suc, ap, true, ◌≢◌,
}
use linux_kernel_module_chea.Kernel.{Cell, Env, FillsBuffer, ok, ok_inj}
use linux_kernel_module_chea.Scull.Device.Defs.{Dev}
use linux_kernel_module_chea.Scull.Device.Io.{Done, scull_read, scull_write}
use linux_kernel_module_chea.Scull.Device.Shape.{IsShaped}
use linux_kernel_module_chea.Scull.Device.Place.{IsGeometry, InReach, place_of}
use linux_kernel_module_chea.Scull.Device.Wrote.{taken}
use linux_kernel_module_chea.Scull.Device.Read.{
  readable, cells_from, eq-cells_from, get_or-cells_from,
}
use native.Mathlib.Decide.{dec_lt}
use linux_kernel_module_chea.Scull.Device.Positions.{contents, in_range, pick}
use linux_kernel_module_chea.Scull.Device.Write.{Stores, scull_write-Stores}
use linux_kernel_module_chea.Scull.Device.Read.{
  Reads, returned, failed, late_read, scull_read-Reads,
}

get_or-some : (bytes : List ℕ) (k : ℕ) → k < length bytes → get_or (map some bytes) k none ≢ none
get_or-some [] k h = absurd (omega arith)
get_or-some (b ∷ bs) zero h = λ e. cc
get_or-some (b ∷ bs) (suc k) h = get_or-some bs k (omega arith)

hole_byte :
    (d : Dev) (pos n : ℕ)
    → 0 < n
    → cells_from d pos n ≡ replicate n none
    → contents d (pos + 0) ≡ none
hole_byte d pos n h e =
    sym (get_or-cells_from d pos n 0 none h)
    ∙ ap (λ (xs : List Cell). get_or xs 0 none) e
    ∙ get_or-replicate n 0 none

stored_byte :
    (dev : Dev) (e : Env) (count pos n : ℕ) (r : Done)
    → Stores dev e count pos n r
    → (k : ℕ) → k < n
    → contents r.dev (pos + k) ≡ get_or (map some (e.user.copy_from_user n).0) k none
stored_byte dev e count pos n r st k h =
    st.5 (pos + k)
    ∙ pick _ (in_range pos n (pos + k)) true (ground arith) (λ _.
      ap (λ (t : ℕ). get_or (map some (e.user.copy_from_user n).0) t none) {x = pos + k - pos}
        {y = k} (omega arith))

readable_all :
    (dev d : Dev) (count count' pos n : ℕ)
    → n ≡ taken dev (place_of dev.quantum dev.qset pos) count
    → d.size ≡ max dev.size (pos + n)
    → d.quantum ≡ dev.quantum
    → d.qset ≡ dev.qset
    → count' ≤ n
    → readable d count' pos ≡ count'
readable_all dev d count count' pos n take size q s le = rw (q, s) (omega arith)

-- A read of at most what a write has just stored gives all of it back.
reread :
    (dev : Dev) (e : Env) (count count' pos n : ℕ)
    → FillsBuffer e.user
    → (r r' : Done) → Stores dev e count pos n r
    → count' ≤ n
    → Reads r.dev count' pos r'
    → (m : ℕ) → r'.ret ≡ ok m
    → (m ≡ count') × (r'.out ≡ take m (map some (e.user.copy_from_user n).0))
reread dev e count count' pos n fill r r' st le (failed s) m h = cc
reread dev e count count' pos n fill r r' st le (late_read s) m h = cc
reread dev e count count' pos n fill r r' st le (returned {n = m'} is rb) m h =
    let same : m' ≡ m = ok_inj (sym is ∙ h) in
    let all = readable_all dev r.dev count count' pos n st.0 st.2 st.3 st.4 le in
    let m-count : m ≡ count' = elim rb.amount [
      | inl full ↦ omega arith
      | inr (nothing, inl past) ↦ omega (arith, st.2)
      | inr (nothing, inr hole) ↦ elim (dec_lt 0 count') [
        | no empty ↦ omega arith
        | yes some_asked ↦ absurd (
            get_or-some (e.user.copy_from_user n).0 0 (omega (arith, fill.fills n)) (
              sym (stored_byte dev e count pos n r st 0 (omega arith))
              ∙ hole_byte r.dev pos _ (omega arith) hole))
      ]
    ] in
    let bytes = map some (e.user.copy_from_user n).0 in
    let enough : m ≤ length bytes =
      omega (arith, length-map (e.user.copy_from_user n).0 some, fill.fills n) in
    (
      m-count,
      rb.bytes
          ∙ ap (cells_from r.dev pos) same
          ∙ sym (
              eq-cells_from r.dev pos m (take m bytes) (omega (arith, length-take m bytes)) (λ k lt.
                get_or-take m bytes k none lt
                ∙ sym (stored_byte dev e count pos n r st k (omega arith)))),
    )

-- On a device in shape, with a positive geometry whose product fits an `int` and at a position
-- whose list item an `int` can count: after a write that returns `n`, a read at the same position
-- of at most `n` bytes that does not fail returns as many as it asks for, and they are the bytes
-- that the write took from the user. The read's end is to fit a `size_t`.
pub scull_read-scull_write :
    (dev : Dev) (e e' : Env) (count count' pos n m : ℕ)
    → IsGeometry dev.quantum dev.qset
    → InReach dev.quantum dev.qset pos
    → IsShaped dev
    → FillsBuffer e.user
    → pos + count' < 2 ^ 64
    → count' ≤ n
    → (scull_write dev e count pos).ret ≡ ok n
    → (scull_read (scull_write dev e count pos).dev e' count' pos).ret ≡ ok m
    → (m ≡ count')
      × ((scull_read (scull_write dev e count pos).dev e' count' pos).out
          ≡ take m (map some (e.user.copy_from_user n).0))
scull_read-scull_write dev e e' count count' pos n m g reach shaped fill small le h h' =
    let st = scull_write-Stores dev e count pos n g reach shaped fill h in
    let r = scull_write dev e count pos in
    reread dev e count count' pos n fill r _ st le
      (scull_read-Reads r.dev e' count' pos (rw (st.3, st.4) g) (rw (st.3, st.4) reach) st.6 small)
      m h'
