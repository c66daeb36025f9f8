-- ===== src/Workqueue/Unwind.antt =====
-- Setting up, and taking down again.
use linux_kernel_module_chea.Base.{
  ◌⊎◌, ℕ, zero, suc, ◌+◌, ◌*◌, ◌≤◌, ◌<◌, ◌≡◌, ◌≢◌, refl, ◌∙◌, sym, Bool, true, false, ◌&&◌, some,
  List, ◌==◌, ltb, set, length, get_elem?, length-set, length-replicate, get_elem?-replicate,
  replicate, arith, Bool-cases, inl, inr, get_elem?_beyond, some_inj, get_elem?-set_if, within,
}
use linux_kernel_module_chea.Kernel.{ok, err, nomem, undefined}
use linux_kernel_module_chea.Scull.Params.{int_max}
use linux_kernel_module_chea.Workqueue.{
  Work, Config, Answers, Left, Built, all_queues, err_create, out_of_bounds, make_queues,
  destroy_below, destroy_all, product, no_work, nothing, conclude, refused, positive, myinit,
  myexit, rounds,
}
use linux_kernel_module_chea.Workqueue.Setup.{
  Planned, Live, Ends, make_queues-Ends, add_works-Added, add_works_beyond,
}

-- No queue lives.
abbrev pub AllDown : List Bool → Type 0
AllDown queues = (q : ℕ) → get_elem? queues q ≢ some true

-- The queues that may live are below `i`.
abbrev OnlyBelow : ℕ → List Bool → Type 0
OnlyBelow i queues = (q : ℕ) → get_elem? queues q ≡ some true → q < i

OnlyBelow-AllDown : (queues : List Bool) → OnlyBelow 0 queues → AllDown queues
OnlyBelow-AllDown queues h q e = absurd (omega (arith, h q e))

Live-OnlyBelow : (n i : ℕ) (queues : List Bool) → Live n i queues → OnlyBelow i queues
Live-OnlyBelow n i queues h q e = elim (Bool-cases (ltb q n)) [
  | inr out ↦
      let no = get_elem?_beyond queues q (ground (arith, out, h.0)) in
      absurd (let e' = sym no ∙ e in cc)
  | inl inside ↦
      let is : ltb q i ≡ true = some_inj (sym (h.1 q (ground (arith, inside))) ∙ e) in
      ground (arith, is)
]

set-OnlyBelow :
    (i : ℕ) (queues : List Bool) → OnlyBelow (suc i) queues → OnlyBelow i (set queues i false)
set-OnlyBelow i queues h q e = elim (Bool-cases (ltb i (length queues))) [
  | inl inside ↦
      let at = get_elem?-set_if queues i q false (ground (arith, inside)) in
      elim (Bool-cases (i == q)) [
        | inl here ↦ absurd (let e' = rw here at (sym at ∙ e) in let e2 = some_inj e' in cc)
        | inr other ↦ let e' = rw other at (sym at ∙ e) in ground (arith, h q e', other)
      ]
  | inr out ↦
      let less = within (set queues i false) q e in
      ground (arith, less, out, length-set queues i false)
]

destroy_below-AllDown :
    (i : ℕ) (queues : List Bool) → OnlyBelow i queues → AllDown (destroy_below i queues)
unfolding destroy_below
destroy_below-AllDown zero queues h = OnlyBelow-AllDown queues h
destroy_below-AllDown (suc i) queues h =
    destroy_below-AllDown i (set queues i false) (set-OnlyBelow i queues h)

-- No queue below `i` lives.
abbrev OnlyFrom : ℕ → List Bool → Type 0
OnlyFrom i queues = (q : ℕ) → get_elem? queues q ≡ some true → i ≤ q

set-OnlyFrom :
    (i : ℕ) (queues : List Bool)
    → i < length queues
    → OnlyFrom i queues
    → OnlyFrom (i + 1) (set queues i false)
set-OnlyFrom i queues inside h q e =
    let at = get_elem?-set_if queues i q false inside in
    elim (Bool-cases (i == q)) [
      | inl here ↦ absurd (let e' = rw here at (sym at ∙ e) in let e2 = some_inj e' in cc)
      | inr other ↦ let e' = rw other at (sym at ∙ e) in ground (arith, h q e', other)
    ]

destroy_all-AllDown :
    (n i : ℕ) (queues : List Bool)
    → i + n ≡ length queues
    → OnlyFrom i queues
    → AllDown (destroy_all n i queues)
unfolding destroy_all
destroy_all-AllDown zero i queues all h = λ q e. omega (arith, h q e, within queues q e, all)
destroy_all-AllDown (suc n) i queues all h =
    destroy_all-AllDown n (i + 1) (set queues i false)
      (omega (arith, all, length-set queues i false)) (set-OnlyFrom i queues (omega (arith, all)) h)

-- The kernel refuses the memory for one of the arrays, or one of the queues.
abbrev pub IsRefused : Config → Answers → Type 0
IsRefused c o =
    ((o.queues && o.works) ≡ false) ⊎ ((q : ℕ) × ((q < c.nqueues) × (o.alloc_workqueue q ≡ false)))

-- What a load comes to: everything that was asked for, which is taken down again by `myexit`, or
-- nothing, if something is refused.
pub data Outcome (c : Config) (o : Answers) : Left → Type 0 where
  loaded :
      {queues : List Bool} {works : List Work}
      → Planned c.nworks (c.nqueues * c.nworks) works
      → Live c.nqueues c.nqueues queues
      → AllDown (myexit c (record { queues = some queues; works = some works }))
      → Outcome c o (record {
        system = record { queues = some queues; works = some works };
        living = queues;
        ret = ok 0;
      })
  unwound :
      {living : List Bool}
      → AllDown living
      → IsRefused c o
      → Outcome c o (record { system = nothing; living = living; ret = err nomem })

conclude-Outcome :
    (c : Config) (o : Answers) (b : Built)
    → Ends o.alloc_workqueue c.nqueues c.nworks b
    → Outcome c o (conclude b)
unfolding conclude myexit
conclude-Outcome c o (all_queues queues works) h =
    loaded h.1 h.0
      (destroy_all-AllDown c.nqueues 0 queues (omega (arith, h.0.0)) (λ q e. omega arith))
conclude-Outcome c o (err_create i queues works) h =
    unwound (destroy_below-AllDown i queues (Live-OnlyBelow c.nqueues i queues h.0)) (inr (i, h.1))
conclude-Outcome c o out_of_bounds h = absurd h

replicate-Live : (n : ℕ) → Live n 0 (replicate n false)
replicate-Live n = (
  length-replicate n false,
  λ q lt. get_elem?-replicate n false q lt ∙ (let e : ltb q 0 ≡ false = ground arith in rw e refl),
)

-- The parameters that `myinit` accepts.
myinit_accepts :
    (c : Config) (o : Answers)
    → 0 < c.nqueues
    → 0 < c.nworks
    → c.nqueues < int_max
    → c.nworks < int_max
    → product c < int_max
    → o.queues ≡ true
    → o.works ≡ true
    → myinit c o
      ≡ conclude (
          make_queues o.alloc_workqueue c.nworks c.nqueues 0 0
            (replicate c.nqueues false)
            (replicate (product c) no_work))
unfolding myinit
myinit_accepts c o q w q' w' small memory memory' =
    let eq : positive c.nqueues ≡ true = ground (arith, q, q') in
    let ew : positive c.nworks ≡ true = ground (arith, w, w') in
    let es : ltb (product c) int_max ≡ true = ground (arith, small) in
    rw (eq, ew, memory, memory', es) refl

myinit_refuses :
    (c : Config) (o : Answers)
    → 0 < c.nqueues
    → 0 < c.nworks
    → c.nqueues < int_max
    → c.nworks < int_max
    → (o.queues && o.works) ≡ false
    → myinit c o ≡ refused (err nomem)
unfolding myinit
myinit_refuses c o q w q' w' lacking =
    let eq : positive c.nqueues ≡ true = ground (arith, q, q') in
    let ew : positive c.nworks ≡ true = ground (arith, w, w') in
    elim (Bool-cases o.queues) [
      | inr off ↦ rw (eq, ew, off) refl
      | inl on ↦ let off : o.works ≡ false = rw on at lacking in rw (eq, ew, on, off) refl
    ]

-- A factor is no larger than a product.
factor_small : (a b m : ℕ) → 0 < b → a * b < m → a < m
factor_small a b m h k = grind (arith, h, k)

-- If both parameters are positive and their product fits an `int`, a load either sets up all queues,
-- with each work at its place under the number of its queue and its own, and then `myexit` destroys
-- all the queues; or the kernel refuses the memory or one of the queues, and then it fails with
-- `nomem` and has destroyed what it has created and freed its arrays. It never writes outside of an
-- array.
pub myinit-Outcome :
    (c : Config) (o : Answers)
    → 0 < c.nqueues
    → 0 < c.nworks
    → c.nqueues * c.nworks < int_max
    → Outcome c o (myinit c o)
myinit-Outcome c o q w fits =
    let q' = factor_small c.nqueues c.nworks int_max w fits in
    let w' : c.nworks < int_max = grind (arith, fits, q) in
    let exact : product c ≡ c.nqueues * c.nworks = omega (arith, fits) in
    elim (Bool-cases (o.queues && o.works)) [
      | inr lacking ↦ rw (myinit_refuses c o q w q' w' lacking) (unwound (λ k e. cc) (inl lacking))
      | inl memory ↦
          let is =
            myinit_accepts c o q w q' w' (omega (arith, exact, fits)) (ground (arith, memory))
              (ground (arith, memory)) in
          rw is (
            conclude-Outcome c o _ (
              make_queues-Ends o.alloc_workqueue c.nqueues c.nworks c.nqueues 0 0 _ _ (omega arith)
                (omega arith) (omega (arith, exact, length-replicate (product c) no_work))
                (replicate-Live c.nqueues) (λ k lt. absurd (omega (arith, lt)))))
    ]

-- Where every queue is granted, a loop over too short an array writes beyond it.
make_queues_beyond :
    (alloc : ℕ → Bool) (nworks n i idx : ℕ) (queues : List Bool) (works : List Work)
    → ((q : ℕ) → alloc q ≡ true)
    → idx ≡ i * nworks
    → idx ≤ length works
    → length works < idx + n * nworks
    → Planned nworks idx works
    → make_queues alloc nworks n i idx queues works ≡ out_of_bounds
unfolding make_queues
make_queues_beyond alloc nworks zero i idx queues works grants at le over h =
    absurd (omega (arith, le, over))
make_queues_beyond alloc nworks (suc n) i idx queues works grants at le over h =
    elim (Bool-cases (ltb (length works) (idx + nworks))) [
      | inl short ↦
          rw (grants i, add_works_beyond i nworks 0 idx works (ground (arith, short)) le) refl
      | inr room ↦
          let a =
            add_works-Added nworks i nworks 0 idx works (omega (arith, at)) (omega arith)
              (ground (arith, room)) h in
          rw (grants i, a.is)
            (make_queues_beyond alloc nworks n (i + 1) (idx + nworks) (set queues i true) a.works
              grants (grind (arith, at)) (ground (arith, room, a.size))
              (grind (arith, over, a.size)) a.done)
    ]

-- If the product of the parameters does not fit an `int`, but what is left of it modulo 2 ^ 32 does,
-- and everything is granted, then `myinit` writes beyond the array of works, which is too short.
pub myinit_overflow :
    (c : Config) (o : Answers)
    → 0 < c.nqueues
    → 0 < c.nworks
    → c.nqueues < int_max
    → c.nworks < int_max
    → int_max ≤ c.nqueues * c.nworks
    → product c < int_max
    → o.queues ≡ true
    → o.works ≡ true
    → ((q : ℕ) → o.alloc_workqueue q ≡ true)
    → (myinit c o).ret ≡ undefined
unfolding conclude
myinit_overflow c o q w q' w' large wrapped memory memory' grants =
    rw
      (
        myinit_accepts c o q w q' w' wrapped memory memory',
        make_queues_beyond o.alloc_workqueue c.nworks c.nqueues 0 0 (replicate c.nqueues false)
            (replicate (product c) no_work) grants (omega arith) (omega arith)
            (omega (arith, large, wrapped, length-replicate (product c) no_work))
            (λ k lt. absurd (omega (arith, lt))),
      )
      refl

-- A work goes through at most five rounds.
rounds_bound : (run : ℕ → Bool) (n i : ℕ) → rounds run n i ≤ n
unfolding rounds
rounds_bound run zero i = omega arith
rounds_bound run (suc n) i = ground (arith, rounds_bound run n (i + 1))
