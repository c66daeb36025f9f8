-- ===== src/SeqFile/Devices.antt =====
-- Reading the devices of kernel_modules/scull.c.
use linux_kernel_module_chea.Base.{
  ℕ, zero, suc, ◌+◌, ◌-◌, ◌≤◌, ◌<◌, ◌≡◌, refl, ◌∙◌, sym, ap, Bool, Option, none, some, List, [],
  ◌∷◌, ◌++◌, leb, arith, Bool-cases, inl, inr, if◌then◌else◌, some_inj,
}
use linux_kernel_module_chea.SeqFile.{
  Shows, cut, ended, more, Reads, eof, again, scull_seq_start, scull_seq_next, scull_seq_ops,
}

-- `k` numbers from `i` on.
unfoldable pub upto : (k i : ℕ) → List ℕ
upto zero i = []
upto (suc k) i = i ∷ upto k (i + 1)

pub upto_none : (k i : ℕ) → k ≡ 0 → upto k i ≡ []
unfolding upto
upto_none zero i h = refl
upto_none (suc k) i h = absurd (omega (arith, h))

pub upto_some : (k i : ℕ) → 0 < k → upto k i ≡ i ∷ upto (k - 1) (i + 1)
unfolding upto
upto_some zero i h = absurd (omega (arith, h))
upto_some (suc k) i h = let e : k ≡ suc k - 1 = omega arith in ap (λ (j : ℕ). i ∷ upto j (i + 1)) e

-- What `scull_seq_next` gives.
record NextIs (n pos : ℕ) (o : Option ℕ) (end : ℕ) : Type 0 where
  position : end ≡ pos + 1
  device : o ≡ (if leb n (pos + 1) then none else some (pos + 1))

scull_seq_next-NextIs :
    (n v pos end : ℕ) (o : Option ℕ) → scull_seq_next n v pos ≡ (o, end) → NextIs n pos o end
unfolding scull_seq_next
scull_seq_next-NextIs n v pos end o e = elim (Bool-cases (leb n (pos + 1))) [
  | inl over ↦
      let e' = rw over at e in
      record {
        position = sym (ap (λ (x : Option ℕ × ℕ). x.1) e');
        device = rw over (sym (ap (λ (x : Option ℕ × ℕ). x.0) e'));
      }
  | inr on ↦
      let e' = rw on at e in
      record {
        position = sym (ap (λ (x : Option ℕ × ℕ). x.1) e');
        device = rw on (sym (ap (λ (x : Option ℕ × ℕ). x.0) e'));
      }
]

-- The next device, if there is one.
next_some :
    (n pos v' end : ℕ)
    → NextIs n pos (some v') end
    → (v' ≡ pos + 1) × ((end ≡ pos + 1) × (pos + 1 < n))
next_some n pos v' end h = elim (Bool-cases (leb n (pos + 1))) [
  | inl over ↦ let e = rw over at h.device in cc
  | inr on ↦ (some_inj (rw on at h.device), (h.position, ground (arith, on)))
]

next_none : (n pos end : ℕ) → NextIs n pos none end → (end ≡ pos + 1) × (n ≤ pos + 1)
next_none n pos end h = elim (Bool-cases (leb n (pos + 1))) [
  | inl over ↦ (h.position, ground (arith, over))
  | inr on ↦ let e = rw on at h.device in cc
]

Shows-upto :
    (n v pos end : ℕ) (vs : List ℕ) (last : Option ℕ)
    → v ≡ pos
    → pos < n
    → Shows (scull_seq_ops n) v pos vs end last
    → vs ++ upto (n - end) end ≡ upto (n - pos) pos
unfolding scull_seq_ops
Shows-upto n v pos end vs last same lt cut = refl
Shows-upto n v pos end vs last same lt (ended e) =
    let h = next_none n pos end (scull_seq_next-NextIs n v pos end none e) in
    rw
      (
        same,
        upto_none (n - end) end (omega (arith, h.0, h.1)),
        upto_some (n - pos) pos (omega (arith, lt)),
        upto_none (n - pos - 1) (pos + 1) (omega (arith, h.1)),
      )
      refl
Shows-upto n v pos end vs last same lt (more {v' = v'} {pos' = pos'} {vs = ws} e h) =
    let k = next_some n pos v' pos' (scull_seq_next-NextIs n v pos pos' (some v') e) in
    let rest = Shows-upto n v' pos' end ws last (k.0 ∙ sym k.1.0) (omega (arith, k.1.0, k.1.1)) h in
    let e1 : n - pos' ≡ n - pos - 1 = omega (arith, k.1.0) in
    let rest' = rw (e1, k.1.0) at rest in
    rw (same, upto_some (n - pos) pos (omega (arith, lt))) (ap (λ (xs : List ℕ). pos ∷ xs) rest')

start_some : (n pos v : ℕ) → scull_seq_start n pos ≡ some v → (v ≡ pos) × (pos < n)
unfolding scull_seq_start
start_some n pos v e = elim (Bool-cases (leb n pos)) [
  | inl over ↦ let e' = rw over at e in cc
  | inr on ↦ (sym (some_inj (rw on at e)), ground (arith, on))
]

start_none : (n pos : ℕ) → scull_seq_start n pos ≡ none → n ≤ pos
unfolding scull_seq_start
start_none n pos e = elim (Bool-cases (leb n pos)) [
  | inl over ↦ ground (arith, over)
  | inr on ↦ let e' = rw on at e in cc
]

-- However a reader of /proc/scullseq cuts its reads, it is shown every device from the one at its
-- position to the last, once and in order.
pub Reads-upto :
    (n : ℕ) (kmalloc : Bool) (pos : ℕ) (shown : List ℕ)
    → Reads (scull_seq_ops n) kmalloc pos shown
    → shown ≡ upto (n - pos) pos
unfolding scull_seq_ops
Reads-upto n kmalloc pos shown (eof e) =
    sym (upto_none (n - pos) pos (omega (arith, start_none n pos e)))
Reads-upto n kmalloc pos shown
      (again {v = v} {end = end} {vs = vs} {rest = rest} {last = last} granted e h reads) =
    let k = start_some n pos v e in
    ap (λ (xs : List ℕ). vs ++ xs) (Reads-upto n kmalloc end rest reads)
    ∙ Shows-upto n v pos end vs last k.0 k.1 h
