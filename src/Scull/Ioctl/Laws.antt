-- ===== src/Scull/Ioctl/Laws.antt =====
-- What `scull_ioctl` may change, for whom, and what its commands give back.
use linux_kernel_module_chea.Base.{
  ℕ, ◌%◌, ◌^◌, ◌≡◌, ◌≢◌, ◌<◌, ◌⊎◌, inl, inr, refl, arith, Bool-cases, ◌==◌, true, false, Option,
  none, some, ap, ◌∙◌,
}
use linux_kernel_module_chea.Kernel.{ok, err, undefined, notty, fault, Env}
use linux_kernel_module_chea.Scull.Params.{Params, quantum_default, qset_default}
use linux_kernel_module_chea.Scull.Device.Defs.{Dev, scull_trim, place}
use linux_kernel_module_chea.Scull.Device.Io.{scull_write, write_at}
use linux_kernel_module_chea.Scull.Ioctl.{
  Abi, Cmd, IoctlEnv, Action, Method, sets, tells, gets, queries, exchanges, shifts, reset,
  on_quantum, on_qset, tell_p_buffer, query_p_buffer, ioc_magic, ioc_maxnr, action_of, apply_method,
  act, scull_ioctl,
}

apply_method_guarded :
    (m : Method) (e : IoctlEnv) (cur arg : ℕ)
    → e.capable ≡ false
    → (apply_method m e cur arg).value ≡ cur
unfolding apply_method
apply_method_guarded sets e cur arg h = rw h
apply_method_guarded tells e cur arg h = rw h
apply_method_guarded gets e cur arg h = refl
apply_method_guarded queries e cur arg h = refl
apply_method_guarded exchanges e cur arg h = rw h
apply_method_guarded shifts e cur arg h = rw h

-- The command SCULL_IOCRESET, by its fields.
abbrev pub IsReset : Abi → Cmd → Type 0
IsReset a c = ((c.type ≡ ioc_magic) × (c.nr ≡ 0)) × ((c.dir ≡ a.ioc_none) × (c.size ≡ 0))

-- The quantum and the array size are as before; or the command is the reset, and they have their
-- defaults.
abbrev pub SameOrReset : Abi → Cmd → Params → Params → Type 0
SameOrReset a c p p' =
    ((p'.scull_quantum ≡ p.scull_quantum) × (p'.scull_qset ≡ p.scull_qset))
    ⊎ (IsReset a c × ((p'.scull_quantum ≡ quantum_default) × (p'.scull_qset ≡ qset_default)))

-- Only the first label of the switch is the reset.
action_of_reset :
    (a : Abi) (c : Cmd)
    → action_of a c ≡ some reset
    → (c.nr ≡ 0) × ((c.dir ≡ a.ioc_none) × (c.size ≡ 0))
unfolding action_of
action_of_reset a c h = ground (arith, h)

act_guarded :
    (a : Abi) (c : Cmd) (o : Option Action) (e : IoctlEnv) (p : Params) (arg : ℕ)
    → c.type ≡ ioc_magic
    → action_of a c ≡ o
    → e.capable ≡ false
    → SameOrReset a c p (act o e p arg).0
unfolding act
act_guarded a c none e p arg own is h = inl (refl, refl)
act_guarded a c (some reset) e p arg own is h =
    let r = action_of_reset a c is in inr (((own, r.0), r.1), (refl, refl))
act_guarded a c (some (on_quantum m)) e p arg own is h =
    inl (apply_method_guarded m e p.scull_quantum arg h, refl)
act_guarded a c (some (on_qset m)) e p arg own is h =
    inl (refl, apply_method_guarded m e p.scull_qset arg h)
act_guarded a c (some tell_p_buffer) e p arg own is h = inl (refl, refl)
act_guarded a c (some query_p_buffer) e p arg own is h = inl (refl, refl)

-- For a caller without CAP_SYS_ADMIN no command but SCULL_IOCRESET changes the quantum or the array
-- size, and that one leaves them as they are or gives both their defaults.
pub scull_ioctl_guarded :
    (a : Abi) (e : IoctlEnv) (p : Params) (c : Cmd) (arg : ℕ)
    → e.capable ≡ false
    → SameOrReset a c p (scull_ioctl a e p c arg).0
unfolding scull_ioctl
scull_ioctl_guarded a e p c arg h = elim (Bool-cases (c.type == ioc_magic)) [
  | inr other ↦ rw other (inl (refl, refl))
  | inl same ↦
      let own : c.type ≡ ioc_magic = ground (arith, same) in
      let inner = act_guarded a c (action_of a c) e p arg own refl h in ground (arith, inner, same)
]

-- A command of another driver, or with a number above the last, gives `notty` and changes nothing.
pub scull_ioctl_rejects :
    (a : Abi) (e : IoctlEnv) (p : Params) (c : Cmd) (arg : ℕ)
    → (c.type ≢ ioc_magic) ⊎ (ioc_maxnr < c.nr)
    → scull_ioctl a e p c arg ≡ (p, err notty, none)
unfolding scull_ioctl
scull_ioctl_rejects a e p c arg h = ground arith

-- The direction bits are distinct, and say what they say.
pub record IsAbi (a : Abi) : Type 0 where
  pub none_moves_nothing : (a.has_read a.ioc_none ≡ false) × (a.has_write a.ioc_none ≡ false)
  pub int_has_size : a.int_size ≢ 0
  pub distinct : (a.ioc_read ≢ a.ioc_both) × (a.ioc_write ≢ a.ioc_both) × (a.ioc_read ≢ a.ioc_write)

-- A command without an argument in memory, and one with an `int` there.
abbrev pub plain : Abi → ℕ → Cmd
plain a n = record { dir = a.ioc_none; type = ioc_magic; nr = n; size = 0 }

abbrev pub with_int : Abi → ℕ → ℕ → Cmd
with_int a d n = record { dir = d; type = ioc_magic; nr = n; size = a.int_size }

-- The fifteen commands of the driver are told apart.
pub action_of_all :
    (a : Abi)
    → IsAbi a
    → (action_of a (plain a 0) ≡ some reset)
      × (action_of a (with_int a a.ioc_write 1) ≡ some (on_quantum sets))
      × (action_of a (with_int a a.ioc_write 2) ≡ some (on_qset sets))
      × (action_of a (plain a 3) ≡ some (on_quantum tells))
      × (action_of a (plain a 4) ≡ some (on_qset tells))
      × (action_of a (with_int a a.ioc_read 5) ≡ some (on_quantum gets))
      × (action_of a (with_int a a.ioc_read 6) ≡ some (on_qset gets))
      × (action_of a (plain a 7) ≡ some (on_quantum queries))
      × (action_of a (plain a 8) ≡ some (on_qset queries))
      × (action_of a (with_int a a.ioc_both 9) ≡ some (on_quantum exchanges))
      × (action_of a (with_int a a.ioc_both 10) ≡ some (on_qset exchanges))
      × (action_of a (plain a 11) ≡ some (on_quantum shifts))
      × (action_of a (plain a 12) ≡ some (on_qset shifts))
      × (action_of a (plain a 13) ≡ some tell_p_buffer)
      × (action_of a (plain a 14) ≡ some query_p_buffer)
unfolding action_of
action_of_all a h = (
  ground arith,
  ground arith,
  ground arith,
  ground arith,
  ground arith,
  ground arith,
  ground arith,
  ground arith,
  ground arith,
  ground arith,
  ground arith,
  ground arith,
  ground arith,
  ground arith,
  ground arith,
)

scull_ioctl-plain :
    (a : Abi)
    → IsAbi a
    → (e : IoctlEnv) (p : Params) (n arg : ℕ) → n < 15
    → scull_ioctl a e p (plain a n) arg ≡ act (action_of a (plain a n)) e p arg
unfolding scull_ioctl
scull_ioctl-plain a h e p n arg lt = let m = h.none_moves_nothing in rw (m.0, m.1) (ground arith)

pub by_action :
    (a : Abi)
    → IsAbi a
    → (e : IoctlEnv) (p : Params) (n arg : ℕ) → n < 15
    → (x : Option Action) → action_of a (plain a n) ≡ x
    → scull_ioctl a e p (plain a n) arg ≡ act x e p arg
by_action a h e p n arg lt x is =
    scull_ioctl-plain a h e p n arg lt ∙ ap (λ (o : Option Action). act o e p arg) is

divides_by_zero :
    (dev : Dev) (env : Env) (count pos : ℕ) (p : Params)
    → env.interrupted ≡ false
    → p.scull_quantum ≡ 0
    → (scull_write (scull_trim p dev).0 env count pos).ret ≡ undefined
unfolding scull_write scull_trim
divides_by_zero dev env count pos p calm zero_quantum = rw (calm, zero_quantum, place, write_at)

module _ (e : IoctlEnv) (p : Params) (v : ℕ) (c : e.capable ≡ true) where
  tells_quantum :
      act (some (on_quantum tells)) e p v ≡ (record p { scull_quantum = v % 2 ^ 32 }, ok 0, none)
  unfolding act apply_method
  tells_quantum = rw c

  tells_qset : act (some (on_qset tells)) e p v ≡ (record p { scull_qset = v % 2 ^ 32 }, ok 0, none)
  unfolding act apply_method
  tells_qset = rw c

  shifts_quantum :
      act (some (on_quantum shifts)) e p v
      ≡ (record p { scull_quantum = v % 2 ^ 32 }, ok p.scull_quantum, none)
  unfolding act apply_method
  shifts_quantum = rw c

  shifts_qset :
      act (some (on_qset shifts)) e p v
      ≡ (record p { scull_qset = v % 2 ^ 32 }, ok p.scull_qset, none)
  unfolding act apply_method
  shifts_qset = rw c

-- What a privileged caller tells the driver, as an `int`, is what any later query returns, for the
-- quantum and the array size; a shift returns the value before and stores the new one. The pipe
-- buffer's size takes any caller's word.
pub scull_ioctl_tell_query :
    (a : Abi) (e e' : IoctlEnv) (p : Params) (v w : ℕ)
    → IsAbi a
    → e.capable ≡ true
    → (let told = (scull_ioctl a e p (plain a 3) v).0 in
        (scull_ioctl a e' told (plain a 7) w ≡ (told, ok (v % 2 ^ 32), none))
        × (scull_ioctl a e told (plain a 11) w
            ≡ (record told { scull_quantum = w % 2 ^ 32 }, ok (v % 2 ^ 32), none)))
      × (let told = (scull_ioctl a e p (plain a 4) v).0 in
          (scull_ioctl a e' told (plain a 8) w ≡ (told, ok (v % 2 ^ 32), none))
          × (scull_ioctl a e told (plain a 12) w
              ≡ (record told { scull_qset = w % 2 ^ 32 }, ok (v % 2 ^ 32), none)))
      × (let told = (scull_ioctl a e' p (plain a 13) v).0 in
          scull_ioctl a e' told (plain a 14) w ≡ (told, ok (v % 2 ^ 32), none))
unfolding act apply_method
scull_ioctl_tell_query a e e' p v w h c =
    let d = action_of_all a h in
    let by = by_action a h in
    let told = by e p 3 v (omega arith) _ d.3 ∙ tells_quantum e p v c in
    let told_qset = by e p 4 v (omega arith) _ d.4 ∙ tells_qset e p v c in
    let told_size = by e' p 13 v (omega arith) _ d.13 in
    (
      rw told (
        by e' _ 7 w (omega arith) _ d.7,
        by e _ 11 w (omega arith) _ d.11 ∙ shifts_quantum e _ w c,
      ),
      rw told_qset
          (by e' _ 8 w (omega arith) _ d.8, by e _ 12 w (omega arith) _ d.12 ∙ shifts_qset e _ w c),
      rw told_size (by e' _ 14 w (omega arith) _ d.14),
    )

-- An exchange by a privileged caller puts the old value at the caller's address and takes the value
-- that was there, if both copies succeed.
pub scull_ioctl_exchange :
    (a : Abi) (e : IoctlEnv) (p : Params) (arg v : ℕ)
    → IsAbi a
    → e.capable ≡ true
    → e.access_ok ≡ true
    → e.get_user ≡ (false, v)
    → e.put_user_fails ≡ false
    → (scull_ioctl a e p (with_int a a.ioc_both 9) arg
        ≡ (record p { scull_quantum = v }, ok 0, some p.scull_quantum))
      × (scull_ioctl a e p (with_int a a.ioc_both 10) arg
          ≡ (record p { scull_qset = v }, ok 0, some p.scull_qset))
unfolding scull_ioctl
scull_ioctl_exchange a e p arg v h c ok_access got put =
    let d = action_of_all a h in
    (
      rw (d.9, act, apply_method, c, ok_access, got, put) (ground arith),
      rw (d.10, act, apply_method, c, ok_access, got, put) (ground arith),
    )

-- A set by a privileged caller from an address that faults fails, and leaves 0 as the quantum, for
-- `__get_user` zeroes its variable; a device that is then emptied divides by zero in any write.
pub scull_ioctl_fault_breaks_write :
    (a : Abi) (e : IoctlEnv) (p : Params) (arg : ℕ) (dev : Dev) (env : Env) (count pos : ℕ)
    → IsAbi a
    → e.capable ≡ true
    → e.access_ok ≡ true
    → e.get_user ≡ (true, 0)
    → env.interrupted ≡ false
    → (let r = scull_ioctl a e p (with_int a a.ioc_write 1) arg in
        (r.1 ≡ err fault) × ((scull_write (scull_trim r.0 dev).0 env count pos).ret ≡ undefined))
unfolding scull_ioctl
scull_ioctl_fault_breaks_write a e p arg dev env count pos h c ok_access got calm =
    let d = action_of_all a h in
    rw (d.1, act, apply_method, c, ok_access, got)
      (ground arith, divides_by_zero dev env count pos _ calm (ground arith))
