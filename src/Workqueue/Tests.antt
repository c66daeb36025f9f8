-- ===== src/Workqueue/Tests.antt =====
-- Two queues of two works.
use linux_kernel_module_chea.Base.{◌≡◌, refl, true, false, some, ◌==◌, [], ◌∷◌, arith}
use linux_kernel_module_chea.Kernel.{ok, err, nomem, undefined}
use linux_kernel_module_chea.Workqueue.{Config, Answers, nothing, myinit}
use linux_kernel_module_chea.Workqueue.Setup.{planned}
use linux_kernel_module_chea.Workqueue.Unwind.{Outcome, myinit-Outcome, myinit_overflow}

abbrev config : Config
config = record { nqueues = 2; nworks = 2 }

-- The second queue is refused.
abbrev one_queue : Answers
one_queue = record { queues = true; works = true; alloc_workqueue = λ q. q == 0 }

abbrev granted : Answers
granted = record one_queue { alloc_workqueue = λ q. true }

sets_up : myinit config granted ≡ record {
  system = record {
    queues = some (true ∷ true ∷ []);
    works = some (planned 2 0 ∷ planned 2 1 ∷ planned 2 2 ∷ planned 2 3 ∷ []);
  };
  living = true ∷ true ∷ [];
  ret = ok 0;
}
unfolding myinit
sets_up = refl

myinit-Outcome_example :
    Outcome config one_queue
      (record { system = nothing; living = false ∷ false ∷ []; ret = err nomem })
unfolding myinit
myinit-Outcome_example = myinit-Outcome config one_queue (omega arith) (omega arith) (omega arith)

-- The product is 2 ^ 32 + 2 ^ 16.
abbrev huge : Config
huge = record { nqueues = 65536; nworks = 65537 }

myinit_overflow_example : (myinit huge granted).ret ≡ undefined
myinit_overflow_example =
    myinit_overflow huge granted (omega arith) (omega arith) (omega arith) (omega arith)
      (omega arith) (omega arith) refl refl (λ q. refl)
