-- ===== src/Scull/Pipe/Tests.antt =====
-- Runs of a pipe of four bytes.
use linux_kernel_module_chea.Base.{
  ℕ, zero, suc, ◌<◌, ◌≡◌, ◌≢◌, refl, true, false, none, some, [], ◌∷◌, ap, arith, replicate, length,
  ◌==◌,
}
use linux_kernel_module_chea.Kernel.{User, FillsBuffer, ok, undefined}
use linux_kernel_module_chea.Scull.Pipe.{
  Pipe, Mode, woken, fails, scull_p_open, scull_p_read, scull_p_write, open_buffer,
}
use linux_kernel_module_chea.Scull.Pipe.Queue.{IsPipe, queue}
use linux_kernel_module_chea.Scull.Pipe.Read.{ReadOutcome, scull_p_read-ReadOutcome}
use linux_kernel_module_chea.Scull.Pipe.Write.{WriteOutcome, scull_p_write-WriteOutcome}
use linux_kernel_module_chea.Scull.Pipe.History.{reads, writes, run, Conserves, run-Conserves}
use linux_kernel_module_chea.Scull.Params.{Params}
use linux_kernel_module_chea.Scull.Ioctl.{Abi, IoctlEnv, scull_ioctl}
use linux_kernel_module_chea.Scull.Ioctl.Laws.{IsAbi, plain}
use linux_kernel_module_chea.Scull.Pipe.Open.{scull_p_open-IsPipe, scull_p_open_overrun}

abbrev sevens : User
sevens = record { copy_to_user = λ bs. false; copy_from_user = λ n. (replicate n 7, false) }

length-sevens : (n : ℕ) → length (replicate {A = ℕ} n 7) ≡ n
length-sevens zero = refl
length-sevens (suc n) = ap suc (length-sevens n)

fills_sevens : FillsBuffer sevens
fills_sevens = record { fills = length-sevens }

abbrev both : Mode
both = record { fmode_read = true; fmode_write = true; nonblock = false }

-- Empty, and with its last byte and its first one queued.
abbrev pipe_at : ℕ → ℕ → Pipe
pipe_at rp wp = record {
  buffer = some (replicate 4 (some 1));
  end = 4;
  buffersize = 4;
  rp = rp;
  wp = wp;
  nreaders = 1;
  nwriters = 1;
  async_queue = true;
}

pipe_at-IsPipe : (rp wp : ℕ) → rp < 4 → wp < 4 → IsPipe (pipe_at rp wp)
pipe_at-IsPipe rp wp h k = record {
  memory = replicate 4 (some 1);
  buffer = refl;
  allocated = refl;
  end = refl;
  nonempty = omega arith;
  int = omega arith;
  rp = h;
  wp = k;
}

run-Conserves_example :
    Conserves
      (pipe_at 3 1)
      (run (pipe_at 3 1) (writes both sevens 5 ∷ reads both sevens 2 ∷ reads both sevens 9 ∷ []))
run-Conserves_example =
    run-Conserves (pipe_at 3 1)
      (writes both sevens 5 ∷ reads both sevens 2 ∷ reads both sevens 9 ∷ [])
      (pipe_at-IsPipe 3 1 (omega arith) (omega arith)) (fills_sevens, (tt, (tt, tt)))

scull_p_read-ReadOutcome_example :
    ReadOutcome
      (pipe_at 2 2)
      (woken (pipe_at 3 1) ∷ [])
      5
      (scull_p_read false both sevens 5 (pipe_at 2 2) (woken (pipe_at 3 1) ∷ []))
scull_p_read-ReadOutcome_example =
    scull_p_read-ReadOutcome false both sevens 5 (pipe_at 2 2) (woken (pipe_at 3 1) ∷ [])
      (pipe_at-IsPipe 2 2 (omega arith) (omega arith))
      (pipe_at-IsPipe 3 1 (omega arith) (omega arith), tt)

scull_p_write-WriteOutcome_example :
    WriteOutcome
      (pipe_at 2 1)
      (woken (pipe_at 3 1) ∷ [])
      sevens
      5
      (scull_p_write false both sevens 5 (pipe_at 2 1) (woken (pipe_at 3 1) ∷ []))
scull_p_write-WriteOutcome_example =
    scull_p_write-WriteOutcome false both sevens 5 (pipe_at 2 1) (woken (pipe_at 3 1) ∷ [])
      fills_sevens (pipe_at-IsPipe 2 1 (omega arith) (omega arith))
      (pipe_at-IsPipe 3 1 (omega arith) (omega arith), tt)

opens_again : open_buffer 4 false (some (replicate 4 (some 1))) ≢ none
unfolding open_buffer
opens_again e = cc

scull_p_open-IsPipe_example :
    (let d = (scull_p_open 4 false false both (ok 0) (pipe_at 3 1)).0 in IsPipe d × (queue d ≡ []))
scull_p_open-IsPipe_example =
    scull_p_open-IsPipe 4 false both (ok 0) (pipe_at 3 1) (omega arith) (omega arith) refl
      opens_again

abbrev abi : Abi
abi = record {
  ioc_none = 0;
  ioc_write = 1;
  ioc_read = 2;
  ioc_both = 3;
  int_size = 4;
  has_read = λ d. d == 2;
  has_write = λ d. d == 1;
}

abi-IsAbi : IsAbi abi
abi-IsAbi = record {
  none_moves_nothing = (refl, refl);
  int_has_size = λ e. absurd (omega arith);
  distinct = ((λ e. absurd (omega arith)), (λ e. absurd (omega arith)), λ e. absurd (omega arith));
}

abbrev guest : IoctlEnv
guest = record { capable = false; access_ok = true; get_user = (false, 0); put_user_fails = false }

abbrev four : Params
four = record { scull_quantum = 4000; scull_qset = 1000; scull_p_buffer = 4 }

scull_p_open_overrun_example :
    (let p' = (scull_ioctl abi guest four (plain abi 13) 9).0 in
      let d = (scull_p_open p'.scull_p_buffer false false both (ok 0) (pipe_at 3 1)).0 in
      scull_p_write false both sevens 8 d [] ≡ fails undefined)
scull_p_open_overrun_example =
    scull_p_open_overrun abi guest four 9 false both (ok 0) (pipe_at 3 1) (replicate 4 (some 1))
      both sevens 8 [] abi-IsAbi refl (omega arith) (omega arith) (omega arith)
