-- ===== src/Workqueue.antt =====
-- kernel_modules/workqueue_cheat.c: work queues that are set up at load time and taken down again.
pub mod Setup
pub mod Unwind
mod Tests
use linux_kernel_module_chea.Base.{
  ℕ, zero, suc, ◌+◌, ◌*◌, ◌%◌, ◌^◌, Bool, true, false, ◌&&◌, Option, none, some, List, [], ◌∷◌,
  ◌==◌, ltb, leb, if◌then◌else◌, replicate, set, length,
}
use linux_kernel_module_chea.Kernel.{Ret, ok, err, undefined, inval, nomem}
use linux_kernel_module_chea.Scull.Params.{int_max}

-- `struct my_work`. `work` is the queue that it has been put on.
pub record Work : Type 0 where
  pub work : Option ℕ
  pub queue_id : ℕ
  pub item_id : ℕ

-- The parameters of the module, each an `int` as its pattern of 32 bits.
pub record Config : Type 0 where
  pub nqueues : ℕ
  pub nworks : ℕ

-- The answers of the kernel: the memory for `queues` and `works`, and each `alloc_workqueue`.
pub record Answers : Type 0 where
  pub queues : Bool
  pub works : Bool
  pub alloc_workqueue : ℕ → Bool

-- What the module holds: the array `queues` with the work queues that live, and the array `works`.
pub record System : Type 0 where
  pub queues : Option (List Bool)
  pub works : Option (List Work)

-- The loop over the works of queue `i`, from work `j` and place `idx` on, with `n` to go. `none`: a
-- write outside of `works`.
unfoldable pub add_works : (i n j idx : ℕ) → List Work → Option (List Work × ℕ)
add_works i zero j idx works = some (works, idx)
add_works i (suc n) j idx works =
    let mw : Work = record { work = some i; queue_id = i + 1; item_id = j + 1 } in
    let rest = add_works i n (j + 1) (idx + 1) (set works idx mw) in
    if ltb idx (length works) then rest else none

-- How the loop over the queues ends.
pub data Built : Type 0 where
  all_queues : List Bool → List Work → Built
  err_create : (i : ℕ) → List Bool → List Work → Built
  out_of_bounds : Built

-- The loop over the queues from queue `i` and place `idx` on, with `n` to go.
unfoldable pub make_queues : (ℕ → Bool) → (nworks n i idx : ℕ) → List Bool → List Work → Built
unfolding add_works
make_queues alloc nworks zero i idx queues works = all_queues queues works
make_queues alloc nworks (suc n) i idx queues works =
    let rest = make_queues alloc nworks n (i + 1) in
    if alloc i
    then elim (add_works i nworks 0 idx works) [
      | none ↦ out_of_bounds
      | some a ↦ rest a.1 (set queues i true) a.0
    ]
    else err_create i queues works

-- `while (--i >= 0) destroy_workqueue(queues[i])`.
unfoldable pub destroy_below : ℕ → List Bool → List Bool
destroy_below zero queues = queues
destroy_below (suc i) queues = destroy_below i (set queues i false)

-- `kcalloc` is asked for the product as an `int`; a negative one is refused.
abbrev pub product : Config → ℕ
product c = c.nqueues * c.nworks % 2 ^ 32

abbrev pub no_work : Work
no_work = record { work = none; queue_id = 0; item_id = 0 }

-- What is left of the system when `myinit` fails: the queues that still live, of which there are to
-- be none, and no arrays.
pub record Left : Type 0 where
  pub system : System
  pub living : List Bool
  pub ret : Ret

abbrev pub nothing : System
nothing = record { queues = none; works = none }

-- How the loop over the queues is followed up.
unfoldable pub conclude : Built → Left
unfolding destroy_below
conclude (all_queues queues works) = record {
  system = record { queues = some queues; works = some works };
  living = queues;
  ret = ok 0;
}
conclude (err_create i queues works) = record {
  system = nothing;
  living = destroy_below i queues;
  ret = err nomem;
}
conclude out_of_bounds = record { system = nothing; living = []; ret = undefined }

abbrev pub refused : Ret → Left
refused r = record { system = nothing; living = []; ret = r }

abbrev pub positive : ℕ → Bool
positive x = ltb 0 x && ltb x int_max

-- `myinit`.
unfoldable pub myinit : Config → Answers → Left
unfolding make_queues conclude
myinit c o =
    if positive c.nqueues && positive c.nworks
    then (if o.queues
        then (if o.works && ltb (product c) int_max
            then conclude (
                make_queues o.alloc_workqueue c.nworks c.nqueues 0 0 (replicate c.nqueues false)
                  (replicate (product c) no_work))
            else refused (err nomem))
        else refused (err nomem))
    else refused (err inval)

-- The loop of `myexit` over the queues from queue `i` on: it skips what is not there.
unfoldable pub destroy_all : (n i : ℕ) → List Bool → List Bool
destroy_all zero i queues = queues
destroy_all (suc n) i queues = destroy_all n (i + 1) (set queues i false)

-- `myexit`: the queues that still live behind it; both arrays are freed.
unfoldable pub myexit : Config → System → List Bool
unfolding destroy_all
myexit c s = elim s.queues [ none ↦ [] | some queues ↦ destroy_all c.nqueues 0 queues ]

-- `work_func`: how many rounds it makes from round `i` on, at most `n`; `run` is what it reads at
-- the head of each round.
unfoldable pub rounds : (run : ℕ → Bool) → (n i : ℕ) → ℕ
rounds run zero i = 0
rounds run (suc n) i = let rest = rounds run n (i + 1) in if run i then suc rest else 0
