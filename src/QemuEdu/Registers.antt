-- ===== src/QemuEdu/Registers.antt =====
-- The registers of the device through the file and in the handler.
use linux_kernel_module_chea.Base.{
  ℕ, ◌+◌, ◌%◌, ◌<◌, ◌≡◌, refl, sym, ◌∙◌, ap, Bool-cases, inl, inr, Bool, true, false, none, some,
  ◌==◌, if◌then◌else◌, arith,
}
use linux_kernel_module_chea.Kernel.{ok}
use linux_kernel_module_chea.QemuEdu.{
  Io, irq_none, irq_handled, irq_handler, read, write, llseek, io_irq_status, io_irq_ack,
}

-- The interrupts of a device: the bits that `io_irq_status` shows. To write them to `io_irq_ack`
-- clears them.
pub record Interrupts (io : Io) : Type 0 where
  pub pending : io.State → ℕ
  pub shown : (s : io.State) → (io.ioread32 io_irq_status s).0 ≡ pending s
  pub kept : (s : io.State) → pending (io.ioread32 io_irq_status s).1 ≡ pending s
  pub cleared : (s : io.State) → pending (io.iowrite32 (pending s) io_irq_ack s) ≡ 0

-- On a line that devices share, the handler takes an interrupt exactly if it is called for this
-- driver, and then the device has no interrupt left; otherwise it leaves the device alone.
pub irq_handler-Interrupts :
    (io : Io) (i : Interrupts io) (major devi : ℕ) (s : io.State)
    → if devi == major
      then (((irq_handler io major devi s).1 ≡ irq_handled)
          × (i.pending (irq_handler io major devi s).0 ≡ 0))
      else (irq_handler io major devi s ≡ (s, irq_none))
unfolding irq_handler
irq_handler-Interrupts io i major devi s = elim (Bool-cases (devi == major)) [
  | inl ours ↦
      let left =
        rw (sym (i.shown s ∙ sym (i.kept s))) at (i.cleared (io.ioread32 io_irq_status s).1) in
      rw (ours, irq_handler) (refl, left)
  | inr theirs ↦ rw (theirs, irq_handler) refl
]

-- A register that holds what is written to it.
pub record IsStorage (io : Io) (addr : ℕ) : Type 0 where
  pub holds : (v : ℕ) (s : io.State) → (io.ioread32 addr (io.iowrite32 v addr s)).0 ≡ v

-- A register that holds what is written to it, at a place that is a multiple of 4, gets the four
-- bytes of a `write` behind an `llseek`; an `llseek` and a `read` that succeeds, of any length but 0,
-- then give them back, and the next `read` finds the end of the file and does not touch the device.
pub read-write-llseek :
    (io : Io) (v off len len' : ℕ) (whence whence' : ℕ) (faults : Bool) (s : io.State)
    → IsStorage io off
    → off % 4 ≡ 0
    → 0 < len
    → let w = write io (some v) 4 (llseek off whence).0 s in
      let r = read io false len (llseek off whence').0 w.device in
      ((w.ret ≡ ok 4) × ((r.ret ≡ ok 4) × (r.out ≡ some v)))
      × (read io faults len' r.off r.device
          ≡ record { device = r.device; off = r.off; ret = ok 0; out = none })
unfolding read write llseek
read-write-llseek io v off len len' whence whence' faults s h aligned positive =
    let e : (off % 4 == 0) ≡ true = ground (arith, aligned) in
    let e' : (len == 0) ≡ false = ground (arith, positive) in
    let e'' : ((off + 1) % 4 == 0) ≡ false = ground (arith, aligned) in
    rw (e, e', e'') ((refl, (refl, ap some (h.holds v s))), refl)
