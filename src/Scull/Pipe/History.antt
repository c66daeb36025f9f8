-- ===== src/Scull/Pipe/History.antt =====
-- Histories of transfers on one pipe.
use linux_kernel_module_chea.Base.{
  ℕ, ◌≡◌, ap, ◌∙◌, sym, false, some, List, [], ◌∷◌, ◌++◌, map, All, inl, inr,
}
use mathlib.Core.List.{append-nil, append_assoc}
use linux_kernel_module_chea.Kernel.{Cell, User, FillsBuffer, ok, err, undefined}
use linux_kernel_module_chea.Scull.Pipe.{
  Pipe, Mode, Outcome, asleep, fails, done, scull_p_read, scull_p_write,
}
use linux_kernel_module_chea.Scull.Pipe.Wait.{Found}
use linux_kernel_module_chea.Scull.Pipe.Queue.{IsPipe, queue}
use linux_kernel_module_chea.Scull.Pipe.Read.{
  ReadOutcome, scull_p_read-ReadOutcome, sleeps, gave_up, took,
}
use linux_kernel_module_chea.Scull.Pipe.Write.{
  WriteOutcome, scull_p_write-WriteOutcome, spoilt, put,
}
use linux_kernel_module_chea.Scull.Pipe.Write

-- One pass of a call with the lock held; a call that waits makes another pass when it is woken.
pub data Pass : Type 0 where
  reads writes : Mode → User → ℕ → Pass

-- The pipe after a pass, the bytes that readers got, and those that writers gave.
pub record Traffic : Type 0 where
  pub pipe : Pipe
  pub got : List Cell
  pub given : List Cell

abbrev quiet : Pipe → Traffic
quiet p = record { pipe = p; got = []; given = [] }

after_read : Pipe → Outcome → Traffic
after_read p asleep = quiet p
after_read p (fails r) = quiet p
after_read p (done d r out s) = record { pipe = d; got = out; given = [] }

after_write : Pipe → User → Outcome → Traffic
after_write p u asleep = quiet p
after_write p u (fails r) = quiet p
after_write p u (done d (ok n) out s) = record {
  pipe = d;
  got = [];
  given = map some (u.copy_from_user n).0;
}
after_write p u (done d (err x) out s) = quiet d
after_write p u (done d undefined out s) = quiet d

pub pass : Pipe → Pass → Traffic
unfolding after_read after_write
pass p (reads m u count) = after_read p (scull_p_read false m u count p [])
pass p (writes m u count) = after_write p u (scull_p_write false m u count p [])

pub run : Pipe → List Pass → Traffic
run p [] = quiet p
run p (c ∷ cs) =
    let t = pass p c in
    let rest = run t.pipe cs in
    record { pipe = rest.pipe; got = t.got ++ rest.got; given = t.given ++ rest.given }

abbrev pub IsPass : Pass → Type 0
IsPass (reads m u count) = Unit
IsPass (writes m u count) = FillsBuffer u

-- What was queued and what was given is what was got and what is queued, in order.
abbrev pub Conserves : Pipe → Traffic → Type 0
Conserves p t = (queue p ++ t.given ≡ t.got ++ queue t.pipe) × IsPipe t.pipe

Found-here : {p d : Pipe} → Found p [] d → d ≡ p
Found-here (inl e) = e
Found-here (inr e) = absurd e

read-Conserves :
    (p : Pipe) (count : ℕ) (o : Outcome)
    → IsPipe p
    → ReadOutcome p [] count o
    → Conserves p (after_read p o)
unfolding after_read
read-Conserves p count o is sleeps = (append-nil (queue p), is)
read-Conserves p count o is gave_up = (append-nil (queue p), is)
read-Conserves p count o is (took d f ne split len n is') =
    (append-nil (queue p) ∙ ap queue (sym (Found-here f)) ∙ split, is')

write-Conserves :
    (p : Pipe) (u : User) (count : ℕ) (o : Outcome)
    → IsPipe p
    → WriteOutcome p [] u count o
    → Conserves p (after_write p u o)
unfolding after_write
write-Conserves p u count o is Write.sleeps = (append-nil (queue p), is)
write-Conserves p u count o is Write.gave_up = (append-nil (queue p), is)
write-Conserves p u count o is (spoilt d f same is') =
    (append-nil (queue p) ∙ ap queue (sym (Found-here f)) ∙ sym same, is')
write-Conserves p u count o is (put d {n} f room joined e is' s) = (
  ap (λ (q : Pipe). queue q ++ map some (u.copy_from_user n).0) (sym (Found-here f)) ∙ sym joined,
  is',
)

pass-Conserves : (p : Pipe) (c : Pass) → IsPipe p → IsPass c → Conserves p (pass p c)
unfolding pass
pass-Conserves p (reads m u count) is h =
    read-Conserves p count _ is (scull_p_read-ReadOutcome false m u count p [] is tt)
pass-Conserves p (writes m u count) is h =
    write-Conserves p u count _ is (scull_p_write-WriteOutcome false m u count p [] h is tt)

-- A pipe is first in, first out: over any history of passes of reads and writes on a well-formed
-- pipe, in any order and with any outcomes of the copies, which fill the kernel's buffer, the
-- bytes that were queued followed by those that writers gave are the bytes that readers got
-- followed by those that are still queued. The pipe stays well-formed.
pub run-Conserves : (p : Pipe) (cs : List Pass) → IsPipe p → All IsPass cs → Conserves p (run p cs)
unfolding run
run-Conserves p [] is h = (append-nil (queue p), is)
run-Conserves p (c ∷ cs) is h =
    let t = pass p c in
    let first = pass-Conserves p c is h.0 in
    let rest = run-Conserves t.pipe cs first.1 h.1 in
    (
      sym (append_assoc (queue p) t.given _)
          ∙ ap (λ (q : List Cell). q ++ (run t.pipe cs).given) first.0
          ∙ append_assoc t.got (queue t.pipe) _
          ∙ ap (◌++◌ t.got) rest.0
          ∙ sym (append_assoc t.got _ _),
      rest.1,
    )
