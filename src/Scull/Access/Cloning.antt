-- ===== src/Scull/Access/Cloning.antt =====
-- The cloned devices: one for each terminal.
use linux_kernel_module_chea.Base.{
  ℕ, ◌≡◌, ◌⊎◌, refl, false, Bool, some, none, Option, [], ◌∷◌, arith, Bool-cases, Option-cases, inl,
  inr, ◌==◌, if◌then◌else◌, some_inj, ap, ◌∙◌, sym,
}
use linux_kernel_module_chea.Kernel.{ok, err, inval, nomem}
use linux_kernel_module_chea.Scull.Params.{Params}
use linux_kernel_module_chea.Scull.Device.Defs.{Dev, scull_trim}
use linux_kernel_module_chea.Scull.Access.{
  Clones, find_clone, update_clone, scull_c_lookfor_device, scull_c_open, open_dev, zeroed,
}

update_clone-find_clone :
    (key : ℕ) (f : Dev → Dev) (cs : Clones) (d : Dev) (k : ℕ)
    → find_clone key cs ≡ some d
    → find_clone k (update_clone key f cs) ≡ (if k == key then some (f d) else find_clone k cs)
unfolding find_clone update_clone
update_clone-find_clone key f [] d k h = cc
update_clone-find_clone key f (c ∷ cs) d k h = elim (Bool-cases (c.0 == key)) [
  | inl here ↦
      let is : c.1 ≡ d = some_inj (sym (rw here refl) ∙ h) in
      let e : c.0 ≡ key = ground arith in rw (here, is, e) (ground arith)
  | inr there ↦
      let rest : find_clone key cs ≡ some d = sym (rw there refl) ∙ h in
      let ih = update_clone-find_clone key f cs d k rest in rw (there, ih) (ground arith)
]

-- The device that an opening with a key comes to: the one that is there, or a new and empty one.
pub clone_for : Params → Option Dev → Dev
clone_for p (some d) = d
clone_for p none = record { data' = []; quantum = p.scull_quantum; qset = p.scull_qset; size = 0 }

find_clone-cons :
    (key : ℕ) (d : Dev) (cs : Clones) (k : ℕ)
    → find_clone k ((key, d) ∷ cs) ≡ (if k == key then some d else find_clone k cs)
unfolding find_clone
find_clone-cons key d cs k = ground arith

lookfor_old :
    (p : Params) (alloc : Bool) (key : ℕ) (cs : Clones) (d : Dev)
    → find_clone key cs ≡ some d
    → scull_c_lookfor_device p alloc key cs ≡ some cs
unfolding scull_c_lookfor_device
lookfor_old p alloc key cs d e = rw (scull_c_lookfor_device, e) refl

lookfor_new :
    (p : Params) (alloc : Bool) (key : ℕ) (cs : Clones)
    → find_clone key cs ≡ none
    → scull_c_lookfor_device p alloc key cs
      ≡ (if alloc then some ((key, (scull_trim p zeroed).0) ∷ cs) else none)
unfolding scull_c_lookfor_device
lookfor_new p alloc key cs e = rw (scull_c_lookfor_device, e) refl

opens_new :
    (p : Params) (truncate : Bool) (key : ℕ) (d : Dev) (cs : Clones) (k : ℕ)
    → find_clone k (update_clone key (open_dev p truncate) ((key, d) ∷ cs))
      ≡ (if k == key then some (open_dev p truncate d) else find_clone k cs)
opens_new p truncate key d cs k =
    update_clone-find_clone key (open_dev p truncate) ((key, d) ∷ cs) d k
      (find_clone-cons key d cs key ∙ ground arith)
    ∙ ap (λ (o : Option Dev). if k == key then some (open_dev p truncate d) else o)
        (find_clone-cons key d cs k)
    ∙ ground arith

-- An opening of scullpriv from a terminal that succeeds has that terminal's own device, emptied if it is asked to be
-- and new if there was none, and leaves the devices of all other terminals alone. One that fails
-- changes nothing; it fails without a terminal, or without memory for a new device.
pub scull_c_open-find_clone :
    (p : Params) (truncate alloc : Bool) (key : ℕ) (cs : Clones) (k : ℕ)
    → (scull_c_open p truncate alloc none cs ≡ (cs, err inval))
      × (((find_clone key cs ≡ none)
            × (alloc ≡ false)
            × (scull_c_open p truncate alloc (some key) cs ≡ (cs, err nomem)))
          ⊎ (((scull_c_open p truncate alloc (some key) cs).1 ≡ ok 0)
              × (find_clone k (scull_c_open p truncate alloc (some key) cs).0 ≡ (
                  if k == key
                  then some (open_dev p truncate (clone_for p (find_clone key cs)))
                  else find_clone k cs))))
unfolding scull_c_open scull_trim clone_for
scull_c_open-find_clone p truncate alloc key cs k = (
  refl,
  elim (Option-cases (find_clone key cs)) [
    | inr (d, e) ↦
        let found = lookfor_old p alloc key cs d e in
        rw (scull_c_open, found, e)
          (inr (refl, update_clone-find_clone key (open_dev p truncate) cs d k e))
    | inl e ↦ elim (Bool-cases alloc) [
      | inr lacking ↦
          let found = lookfor_new p alloc key cs e in
          rw (scull_c_open, found, lacking) (inl (e, refl, refl))
      | inl there ↦
          let found = lookfor_new p alloc key cs e in
          rw (scull_c_open, found, there, e) (inr (refl, opens_new p truncate key _ cs k))
    ]
  ],
)
