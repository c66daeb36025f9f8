-- ===== src/Scull/Pipe/Wait.antt =====
-- The loops that wait on a pipe.
use linux_kernel_module_chea.Base.{
  ◌≡◌, ◌⊎◌, refl, Bool, true, false, List, [], ◌∷◌, All, Bool-cases, inl, inr,
}
use linux_kernel_module_chea.Kernel.{err, again, restartsys}
use linux_kernel_module_chea.Scull.Pipe.{
  Pipe, Wake, signal, lock_fails, woken, Outcome, asleep, fails, wait_loop, on_wake,
}
use linux_kernel_module_chea.Scull.Pipe.Queue.{IsPipe}

-- The others leave the pipe well-formed.
abbrev pub IsWake : Wake → Type 0
IsWake signal = Unit
IsWake lock_fails = Unit
IsWake (woken d) = IsPipe d

-- `d` is one of the pipes that the waits end with.
abbrev pub Woke : List Wake → Pipe → Type 0
Woke [] d = ⊥
Woke (signal ∷ ws) d = Woke ws d
Woke (lock_fails ∷ ws) d = Woke ws d
Woke (woken e ∷ ws) d = (d ≡ e) ⊎ Woke ws d

-- `d` is the pipe at the call, or as a wait found it.
abbrev pub Found : Pipe → List Wake → Pipe → Type 0
Found dev ws d = (d ≡ dev) ⊎ Woke ws d

-- The rule of the loop: what holds of the three ways to give up and of the work on a pipe that is
-- not stuck holds of the loop.
module _ {ℓ} (Q : Outcome → Type ℓ) (stuck : Pipe → Bool) (nonblock : Bool) (k : Pipe → Outcome)
    (sleeps : nonblock ≡ false → Q asleep) (refused : nonblock ≡ true → Q (fails (err again)))
    (interrupted : Q (fails (err restartsys))) where
  pub wait_loop_rule :
      (dev : Pipe) (ws : List Wake)
      → IsPipe dev
      → All IsWake ws
      → ((d : Pipe) → IsPipe d → Found dev ws d → stuck d ≡ false → Q (k d))
      → Q (wait_loop stuck nonblock k dev ws)
  unfolding wait_loop
  wait_loop_rule dev [] is h works = elim (Bool-cases (stuck dev)) [
    | inr go ↦ rw go (works dev is (inl refl) go)
    | inl full ↦
        rw full (elim (Bool-cases nonblock) [ inl e ↦ rw e (refused e) | inr e ↦ rw e (sleeps e) ])
  ]
  wait_loop_rule dev (w ∷ ws) is h works = elim (Bool-cases (stuck dev)) [
    | inr go ↦ rw go (works dev is (inl refl) go)
    | inl full ↦ rw full (elim (Bool-cases nonblock) [
      | inl e ↦ rw e (refused e)
      | inr e ↦ rw e (wakes w h.0 (λ d j. wait_loop_rule d ws j h.1) works)
    ])
  ]
    where
      wakes :
          (v : Wake)
          → IsWake v
          → ((d : Pipe)
              → IsPipe d
              → ((d' : Pipe) → IsPipe d' → Found d ws d' → stuck d' ≡ false → Q (k d'))
              → Q (wait_loop stuck nonblock k d ws))
          → ((d : Pipe) → IsPipe d → Found dev (v ∷ ws) d → stuck d ≡ false → Q (k d))
          → Q (on_wake v (λ d. wait_loop stuck nonblock k d ws))
      wakes signal j rec on = interrupted
      wakes lock_fails j rec on = interrupted
      wakes (woken d) j rec on = rec d j (λ d' i f. on d' i (inr f))
