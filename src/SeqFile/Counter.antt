-- ===== src/SeqFile/Counter.antt =====
-- Reading the numbers of kernel_modules/seq_file.c.
use linux_kernel_module_chea.Base.{
  ℕ, ◌+◌, ◌-◌, ◌≤◌, ◌<◌, ◌≡◌, refl, ◌∙◌, sym, ap, Bool, true, false, Option, none, some, List, [],
  ◌∷◌, ◌++◌, leb, arith, Bool-cases, inl, inr, some_inj, ◌⊎◌,
}
use mathlib.Core.List.{append-nil, append_assoc}
use linux_kernel_module_chea.SeqFile.{
  Shows, cut, ended, more, Reads, eof, again, start, next, my_seq_ops,
}
use linux_kernel_module_chea.SeqFile.Devices.{upto, upto_none, upto_some}

-- Nothing, or the number `max`.
abbrev pub IsTail : ℕ → List ℕ → Type 0
IsTail max t = (t ≡ []) ⊎ (t ≡ max ∷ [])

next_some :
    (max v pos v' end : ℕ)
    → next max v pos ≡ (some v', end)
    → (v' ≡ v + 1) × ((end ≡ v + 1) × (pos < max))
unfolding next
next_some max v pos v' end e = elim (Bool-cases (leb max pos)) [
  | inl over ↦ let e' = rw over at e in let no = ap (λ (x : Option ℕ × ℕ). x.0) e' in cc
  | inr on ↦
      let e' = rw on at e in
      (
        sym (some_inj (ap (λ (x : Option ℕ × ℕ). x.0) e')),
        (sym (ap (λ (x : Option ℕ × ℕ). x.1) e'), ground (arith, on)),
      )
]

next_none : (max v pos end : ℕ) → next max v pos ≡ (none, end) → (end ≡ pos) × (max ≤ pos)
unfolding next
next_none max v pos end e = elim (Bool-cases (leb max pos)) [
  | inl over ↦
      let e' = rw over at e in (sym (ap (λ (x : Option ℕ × ℕ). x.1) e'), ground (arith, over))
  | inr on ↦ let e' = rw on at e in let no = ap (λ (x : Option ℕ × ℕ). x.0) e' in cc
]

-- What one read shows from `pos`, if the next one goes on at `end`.
record Piece (max pos end : ℕ) (vs : List ℕ) : Type 0 where
  tail : List ℕ
  is_tail : IsTail max tail
  in_range : end ≤ max
  no_tail : end < max → tail ≡ []
  shown : vs ++ upto (max - end) end ≡ upto (max - pos) pos ++ tail

Shows-Piece :
    (max v pos end : ℕ) (vs : List ℕ) (last : Option ℕ)
    → v ≡ pos
    → pos ≤ max
    → Shows (my_seq_ops max) v pos vs end last
    → Piece max pos end vs
unfolding my_seq_ops
Shows-Piece max v pos end vs last same le cut = record {
  tail = [];
  is_tail = inl refl;
  in_range = le;
  no_tail = λ lt. refl;
  shown = sym (append-nil (upto (max - pos) pos));
}
Shows-Piece max v pos end vs last same le (ended e) =
    let h = next_none max v pos end e in
    let at_max : pos ≡ max = omega (arith, h.1, le) in
    record {
      tail = max ∷ [];
      is_tail = inr refl;
      in_range = omega (arith, h.0, le);
      no_tail = λ lt. absurd (omega (arith, lt, h.0, h.1));
      shown =
          rw
            (
              upto_none (max - end) end (omega (arith, h.0, h.1)),
              upto_none (max - pos) pos (omega (arith, h.1)),
              same,
              at_max,
            )
            refl;
    }
Shows-Piece max v pos end vs last same le (more {v' = v'} {pos' = pos'} {vs = ws} e h) =
    let k = next_some max v pos v' pos' e in
    let rest =
      Shows-Piece max v' pos' end ws last (k.0 ∙ sym k.1.0) (omega (arith, k.1.0, k.1.1, same)) h in
    let e0 : pos' ≡ pos + 1 = omega (arith, k.1.0, same) in
    let e1 : max - pos' ≡ max - pos - 1 = omega (arith, e0) in
    let shown' = rw (e1, e0) at rest.shown in
    record {
      tail = rest.tail;
      is_tail = rest.is_tail;
      in_range = rest.in_range;
      no_tail = rest.no_tail;
      shown =
          rw (same, upto_some (max - pos) pos (omega (arith, k.1.1)))
            (ap (λ (xs : List ℕ). pos ∷ xs) shown');
    }

start_some :
    (max pos v : ℕ) (kmalloc : Bool) → (start max kmalloc pos).0 ≡ some v → (v ≡ pos) × (pos < max)
unfolding start
start_some max pos v false e = let e' : none ≡ some v = e in cc
start_some max pos v true e = elim (Bool-cases (leb max pos)) [
  | inl over ↦ let e' = rw over at e in cc
  | inr on ↦ (sym (some_inj (rw on at e)), ground (arith, on))
]

start_none : (max pos : ℕ) → (start max true pos).0 ≡ none → max ≤ pos
unfolding start
start_none max pos e = elim (Bool-cases (leb max pos)) [
  | inl over ↦ ground (arith, over)
  | inr on ↦ let e' = rw on at e in cc
]

join : (vs us zs t t' : List ℕ) → vs ++ us ≡ zs ++ t → t ≡ [] → vs ++ (us ++ t') ≡ zs ++ t'
join vs us zs t t' e h =
    sym (append_assoc vs us t')
    ∙ ap (λ (xs : List ℕ). xs ++ t') (e ∙ ap (λ (xs : List ℕ). zs ++ xs) h ∙ append-nil zs)

-- From `max` on there is nothing to read.
over_none :
    (max pos : ℕ) (shown : List ℕ) (kmalloc : Bool)
    → max ≤ pos
    → Reads (my_seq_ops max) kmalloc pos shown
    → shown ≡ []
unfolding my_seq_ops
over_none max pos shown kmalloc le (eof e) = refl
over_none max pos shown kmalloc le (again {v = v} granted e h reads) =
    absurd (omega (arith, (start_some max pos v granted e).1, le))

-- What a reader has been shown from `pos`, and the kernel's answer to the last `start`.
pub data Shown (max pos : ℕ) (kmalloc : Bool) (shown : List ℕ) : Type 0 where
  to_end :
      (t : List ℕ) → shown ≡ upto (max - pos) pos ++ t → IsTail max t → Shown max pos kmalloc shown
  cut_short :
      (missed : List ℕ)
      → kmalloc ≡ false
      → shown ++ missed ≡ upto (max - pos) pos
      → Shown max pos kmalloc shown

Shown-eof :
    (max pos : ℕ) (kmalloc : Bool) → (start max kmalloc pos).0 ≡ none → Shown max pos kmalloc []
Shown-eof max pos true e =
    to_end []
      (sym (
        append-nil (upto (max - pos) pos)
        ∙ upto_none (max - pos) pos (omega (arith, start_none max pos e))))
      (inl refl)
Shown-eof max pos false e = cut_short (upto (max - pos) pos) refl refl

-- One more read before the others.
Shown-again :
    (max pos end : ℕ) (kmalloc : Bool) (vs rest : List ℕ)
    → Piece max pos end vs
    → end < max
    → Shown max end kmalloc rest
    → Shown max pos kmalloc (vs ++ rest)
Shown-again max pos end kmalloc vs rest p lt (to_end t' e i) =
    to_end t'
      (ap (λ (xs : List ℕ). vs ++ xs) e
        ∙ join vs (upto (max - end) end) (upto (max - pos) pos) p.tail t' p.shown (p.no_tail lt))
      i
Shown-again max pos end kmalloc vs rest p lt (cut_short missed refused e) =
    cut_short missed refused (
      append_assoc vs rest missed
      ∙ ap (λ (xs : List ℕ). vs ++ xs) e
      ∙ p.shown
      ∙ ap (λ (xs : List ℕ). upto (max - pos) pos ++ xs) (p.no_tail lt)
      ∙ append-nil (upto (max - pos) pos))

-- However a reader from a position up to `max` cuts its reads, it is shown the numbers from its
-- position up to `max - 1`, once and in order, and may be shown `max` behind them or not; or the
-- allocation of the last `start` has failed, and then it is shown the first of these numbers, in
-- order, and takes this for the end.
pub Reads-IsTail :
    (max : ℕ) (kmalloc : Bool) (pos : ℕ) (shown : List ℕ)
    → pos ≤ max
    → Reads (my_seq_ops max) kmalloc pos shown
    → Shown max pos kmalloc shown
unfolding my_seq_ops
Reads-IsTail max kmalloc pos shown le (eof e) = Shown-eof max pos kmalloc e
Reads-IsTail max kmalloc pos shown le
      (again {v = v} {end = end} {vs = vs} {rest = rest} {last = last} granted e h reads) =
    let k = start_some max pos v granted e in
    let p = Shows-Piece max v pos end vs last k.0 le h in
    elim (Bool-cases (leb max end)) [
      | inl over ↦
          let done : max ≤ end = ground (arith, over) in
          let same : rest ≡ upto (max - end) end =
            over_none max end rest kmalloc done reads
            ∙ sym (upto_none (max - end) end (omega (arith, done))) in
          to_end p.tail (ap (λ (xs : List ℕ). vs ++ xs) same ∙ p.shown) p.is_tail
      | inr on ↦
          Shown-again max pos end kmalloc vs rest p (ground (arith, on))
            (Reads-IsTail max kmalloc end rest p.in_range reads)
    ]
