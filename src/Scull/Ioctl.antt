-- ===== src/Scull/Ioctl.antt =====
-- `scull_ioctl` of kernel_modules/scull.c.
pub mod Laws
mod Tests
use linux_kernel_module_chea.Base.{
  ℕ, ◌+◌, ◌%◌, ◌^◌, ◌≡◌, ◌<◌, Bool, true, false, not, ◌&&◌, ◌||◌, Option, none, some, ltb, ◌==◌,
  if◌then◌else◌,
}
use linux_kernel_module_chea.Kernel.{Ret, ok, err, notty, fault, perm}
use linux_kernel_module_chea.Scull.Params.{Params, defaults, quantum_default, qset_default}

-- A command, as `_IOC_DIR`, `_IOC_TYPE`, `_IOC_NR` and `_IOC_SIZE` take it apart. The four fields
-- make up the command.
pub record Cmd : Type 0 where
  pub dir : ℕ
  pub type : ℕ
  pub nr : ℕ
  pub size : ℕ

-- SCULL_IOC_MAGIC and SCULL_IOC_MAXNR.
abbrev pub ioc_magic : ℕ
ioc_magic = b'k'

abbrev pub ioc_maxnr : ℕ
ioc_maxnr = 14

-- What a command does to one of the parameters `scull_quantum` and `scull_qset`: Set, Tell, Get,
-- Query, eXchange, sHift.
pub data Method : Type 0 where
  sets tells gets queries exchanges shifts : Method

pub data Action : Type 0 where
  reset : Action
  on_quantum : Method → Action
  on_qset : Method → Action
  tell_p_buffer : Action
  query_p_buffer : Action

-- The values of the direction bits, from the kernel's headers, and `sizeof(int)`.
pub record Abi : Type 0 where
  pub ioc_none : ℕ
  pub ioc_write : ℕ
  pub ioc_read : ℕ
  pub ioc_both : ℕ
  pub int_size : ℕ
  pub has_read : ℕ → Bool
  pub has_write : ℕ → Bool

-- What the kernel answers during a call: whether the caller has CAP_SYS_ADMIN, whether the argument
-- is an address that may be accessed, whether `__get_user` fails and what it leaves in its variable,
-- and whether `__put_user` fails.
pub record IoctlEnv : Type 0 where
  pub capable : Bool
  pub access_ok : Bool
  pub get_user : Bool × ℕ
  pub put_user_fails : Bool

-- A plain command, `_IO(magic, nr)`, and one with an `int` argument.
abbrev is_plain : Abi → Cmd → ℕ → Bool
is_plain a c n = (c.dir == a.ioc_none && c.size == 0) && c.nr == n

abbrev is_int : Abi → ℕ → Cmd → ℕ → Bool
is_int a d c n = (c.dir == d && c.size == a.int_size) && c.nr == n

-- The labels of the switch.
unfoldable pub action_of : Abi → Cmd → Option Action
action_of a c =
    if is_plain a c 0
    then some reset
    else (if is_int a a.ioc_write c 1
        then some (on_quantum sets)
        else (if is_int a a.ioc_write c 2
            then some (on_qset sets)
            else (if is_plain a c 3
                then some (on_quantum tells)
                else (if is_plain a c 4
                    then some (on_qset tells)
                    else (if is_int a a.ioc_read c 5
                        then some (on_quantum gets)
                        else (if is_int a a.ioc_read c 6
                            then some (on_qset gets)
                            else (if is_plain a c 7
                                then some (on_quantum queries)
                                else (if is_plain a c 8
                                    then some (on_qset queries)
                                    else (if is_int a a.ioc_both c 9
                                        then some (on_quantum exchanges)
                                        else (if is_int a a.ioc_both c 10
                                            then some (on_qset exchanges)
                                            else (if is_plain a c 11
                                                then some (on_quantum shifts)
                                                else (if is_plain a c 12
                                                    then some (on_qset shifts)
                                                    else (if is_plain a c 13
                                                        then some tell_p_buffer
                                                        else (if is_plain a c 14
                                                            then some query_p_buffer
                                                            else none))))))))))))))

-- The parameter after a method, the result, and what is put at the user's address.
pub record Answer : Type 0 where
  pub value : ℕ
  pub ret : Ret
  pub put : Option ℕ

abbrev answer : ℕ → Ret → Option ℕ → Answer
answer v r p = record { value = v; ret = r; put = p }

abbrev status : Bool → Ret
status fails = if fails then err fault else ok 0

abbrev put_of : Bool → ℕ → Option ℕ
put_of fails v = if fails then none else some v

-- `cur = arg` cuts the argument to an `int`. A result of type `int` is its pattern.
unfoldable pub apply_method : Method → IoctlEnv → (cur arg : ℕ) → Answer
apply_method sets e cur arg =
    if not e.capable
    then answer cur (err perm) none
    else answer e.get_user.1 (status e.get_user.0) none
apply_method tells e cur arg =
    if not e.capable then answer cur (err perm) none else answer (arg % 2 ^ 32) (ok 0) none
apply_method gets e cur arg = answer cur (status e.put_user_fails) (put_of e.put_user_fails cur)
apply_method queries e cur arg = answer cur (ok cur) none
apply_method exchanges e cur arg =
    if not e.capable
    then answer cur (err perm) none
    else (if e.get_user.0
        then answer e.get_user.1 (err fault) none
        else answer e.get_user.1 (status e.put_user_fails) (put_of e.put_user_fails cur))
apply_method shifts e cur arg =
    if not e.capable then answer cur (err perm) none else answer (arg % 2 ^ 32) (ok cur) none

-- The body of the switch.
unfoldable pub act : Option Action → IoctlEnv → Params → ℕ → Params × Ret × Option ℕ
unfolding apply_method
act none e p arg = (p, err notty, none)
act (some reset) e p arg =
    (record p { scull_quantum = quantum_default; scull_qset = qset_default }, ok 0, none)
act (some (on_quantum m)) e p arg =
    let r = apply_method m e p.scull_quantum arg in
    (record p { scull_quantum = r.value }, r.ret, r.put)
act (some (on_qset m)) e p arg =
    let r = apply_method m e p.scull_qset arg in (record p { scull_qset = r.value }, r.ret, r.put)
act (some tell_p_buffer) e p arg = (record p { scull_p_buffer = arg % 2 ^ 32 }, ok 0, none)
act (some query_p_buffer) e p arg = (p, ok p.scull_p_buffer, none)

-- `scull_ioctl`: the parameters after the call, the result, and what is put at the user's address.
unfoldable pub scull_ioctl : Abi → IoctlEnv → Params → Cmd → ℕ → Params × Ret × Option ℕ
unfolding act action_of
scull_ioctl a e p c arg =
    if not (c.type == ioc_magic)
    then (p, err notty, none)
    else (if ltb ioc_maxnr c.nr
        then (p, err notty, none)
        else (if (a.has_read c.dir || a.has_write c.dir) && not e.access_ok
            then (p, err fault, none)
            else act (action_of a c) e p arg))
