-- ===== src/Scull/Params.antt =====
-- The parameters of kernel_modules/scull.c that can be set at load time and by ioctl.
use linux_kernel_module_chea.Base.{ℕ, ◌^◌}

-- An `int` is its 32-bit pattern: 2 ^ 31 and above are the negative numbers.
abbrev pub int_max : ℕ
int_max = 2 ^ 31

pub record Params : Type 0 where
  pub scull_quantum : ℕ
  pub scull_qset : ℕ
  pub scull_p_buffer : ℕ

-- SCULL_QUANTUM, SCULL_QSET, SCULL_P_BUFFER.
abbrev pub quantum_default : ℕ
quantum_default = 4000

abbrev pub qset_default : ℕ
qset_default = 1000

abbrev pub p_buffer_default : ℕ
p_buffer_default = 4000

pub defaults : Params
defaults = record {
  scull_quantum = quantum_default;
  scull_qset = qset_default;
  scull_p_buffer = p_buffer_default;
}
