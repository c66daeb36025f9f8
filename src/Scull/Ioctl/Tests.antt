-- ===== src/Scull/Ioctl/Tests.antt =====
-- Calls of `scull_ioctl` on an architecture with the usual numbers.
use linux_kernel_module_chea.Base.{refl, true, false, arith, ◌==◌, replicate, []}
use linux_kernel_module_chea.Kernel.{Env, User}
use linux_kernel_module_chea.Scull.Params.{Params}
use linux_kernel_module_chea.Scull.Device.Defs.{Dev}
use linux_kernel_module_chea.Scull.Ioctl.{Abi, IoctlEnv, scull_ioctl}
use linux_kernel_module_chea.Scull.Ioctl.Laws.{IsAbi, SameOrReset, plain, scull_ioctl_guarded}

abbrev abi : Abi
abi = record {
  ioc_none = 0;
  ioc_write = 1;
  ioc_read = 2;
  ioc_both = 3;
  int_size = 4;
  has_read = λ d. d == 2;
  has_write = λ d. d == 1;
}

abi-IsAbi : IsAbi abi
abi-IsAbi = record {
  none_moves_nothing = (refl, refl);
  int_has_size = λ e. absurd (omega arith);
  distinct = ((λ e. absurd (omega arith)), (λ e. absurd (omega arith)), λ e. absurd (omega arith));
}

abbrev root : IoctlEnv
root = record { capable = true; access_ok = true; get_user = (false, 77); put_user_fails = false }

abbrev guest : IoctlEnv
guest = record { capable = false; access_ok = true; get_user = (false, 77); put_user_fails = false }

abbrev faulted : IoctlEnv
faulted = record { capable = true; access_ok = true; get_user = (true, 0); put_user_fails = false }

abbrev params : Params
params = record { scull_quantum = 4000; scull_qset = 1000; scull_p_buffer = 4000 }

scull_ioctl_guarded_example :
    SameOrReset abi (plain abi 0) params (scull_ioctl abi guest params (plain abi 0) 5).0
scull_ioctl_guarded_example = scull_ioctl_guarded abi guest params (plain abi 0) 5 refl

abbrev user : User
user = record { copy_to_user = λ bs. false; copy_from_user = λ n. (replicate n 7, false) }

abbrev env : Env
env = record { interrupted = false; allocs = λ n. true; user = user }

abbrev dev : Dev
dev = record { data' = []; quantum = 4; qset = 2; size = 0 }
