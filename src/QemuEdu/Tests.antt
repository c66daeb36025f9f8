-- ===== src/QemuEdu/Tests.antt =====
-- A device with its interrupt bits, and one with a register.
use linux_kernel_module_chea.Base.{
  ℕ, ◌-◌, ◌≡◌, refl, true, false, none, some, [], ◌∷◌, ◌==◌, if◌then◌else◌, arith,
}
use linux_kernel_module_chea.Kernel.{ok}
use linux_kernel_module_chea.QemuEdu.{
  Io, read, write, llseek, io_irq_ack, PciDev, Driver, Answers, pci_probe, pci_remove,
}
use linux_kernel_module_chea.QemuEdu.Registers.{Interrupts, IsStorage, read-write-llseek}
use linux_kernel_module_chea.QemuEdu.Probing.{AllGood, pci_remove-pci_probe-pci_probe}

-- Any read gives the interrupt bits, and a write to the place for it takes bits away.
abbrev bits : Io
bits = record {
  State = ℕ;
  ioread32 = λ addr s. (s, s);
  iowrite32 = λ v addr s. if addr == io_irq_ack then s - v else s;
}

abbrev bits_interrupts : Interrupts bits
bits_interrupts = record {
  pending = λ s. s;
  shown = λ s. refl;
  kept = λ s. refl;
  cleared = λ s. omega arith;
}

abbrev register : Io
register = record { State = ℕ; ioread32 = λ addr s. (s, s); iowrite32 = λ v addr s. v }

register-IsStorage : IsStorage register 4
register-IsStorage = record { holds = λ v s. refl }

read-write-llseek_example :
    let w = write register (some 7) 4 (llseek 4 0).0 1 in
    let r = read register false 4 (llseek 4 1).0 w.device in
    ((w.ret ≡ ok 4) × ((r.ret ≡ ok 4) × (r.out ≡ some 7)))
    × (read register true 4 r.off r.device
        ≡ record { device = r.device; off = r.off; ret = ok 0; out = none })
read-write-llseek_example =
    read-write-llseek register 7 4 4 4 0 1 true 1 register-IsStorage refl (omega arith)

-- A write at a place between two registers is lost, and returns its length.
write_misaligned :
    write register (some 7) 4 5 1 ≡ record { device = 1; off = 5; ret = ok 4; out = none }
unfolding write
write_misaligned = refl

-- A reader that asks for one byte gets four.
read_too_much : (read register false 1 4 9).ret ≡ ok 4
unfolding read
read_too_much = refl

abbrev good : Answers
good = record {
  register_chrdev = some 240;
  pci_enable_device = true;
  pci_request_region = true;
  pci_iomap = true;
  request_irq = true;
  is_mem = true;
  dma_from = some 4096;
  dma_to = some 8192;
}

abbrev later : Answers
later = record good { register_chrdev = some 241 }

AllGood-later : AllGood later
AllGood-later = record {
  enable = refl;
  region = refl;
  iomap = refl;
  irq = refl;
  mem = refl;
  buffer = (4096, refl);
}

AllGood-good : AllGood good
AllGood-good = record {
  enable = refl;
  region = refl;
  iomap = refl;
  irq = refl;
  mem = refl;
  buffer = (4096, refl);
}

abbrev idle : Driver
idle = record {
  major = none;
  pdev = none;
  held = record { chrdevs = []; enabled = []; regions = []; mapped = []; irqs = []; dma = [] };
}

abbrev left_device : PciDev
left_device = record { id = 3; irq = 10 }

abbrev right_device : PciDev
right_device = record { id = 4; irq = 11 }

pci_remove-pci_probe-pci_probe_example :
    (d' : Driver) × ((pci_remove left_device
          (pci_probe later right_device (pci_probe good left_device idle).driver).driver
        ≡ some d')
      × ((d'.held.irqs ≡ 10 ∷ []) × ((d'.held.chrdevs ≡ 240 ∷ []) × (d'.held.regions ≡ 4 ∷ []))))
pci_remove-pci_probe-pci_probe_example =
    pci_remove-pci_probe-pci_probe good later left_device right_device 240 241 idle AllGood-good
      AllGood-later refl refl (ground arith)
