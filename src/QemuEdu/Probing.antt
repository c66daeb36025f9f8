-- ===== src/QemuEdu/Probing.antt =====
-- What the driver holds after `pci_probe`, and what `pci_remove` gives back.
use linux_kernel_module_chea.Base.{
  ℕ, ◌%◌, ◌^◌, ◌≡◌, ◌≢◌, refl, Bool, true, false, ◌&&◌, ◌⊎◌, Option, none, some, List, [], ◌∷◌,
  ◌==◌, arith,
}
use linux_kernel_module_chea.Kernel.{ok, undefined}
use linux_kernel_module_chea.QemuEdu.{
  PciDev, Held, Driver, Answers, Write, Probed, or_none, dma_test, sanity_checks, take_region,
  pci_probe, give_back, give_back_major, pci_remove, io_dma_src, io_dma_dst, io_dma_cnt, io_dma_cmd,
  dma_base, dma_start, dma_size,
}

-- What is still held after `pci_remove`: the device is enabled, its registers are mapped, and the
-- buffers for DMA are allocated.
abbrev pub left_behind : Answers → PciDev → (h : ℕ) → Held → Held
left_behind a dev h held = record held {
  enabled = dev.id ∷ held.enabled;
  mapped = dev.id ∷ held.mapped;
  dma = or_none a.dma_to (h ∷ held.dma);
}

-- A transfer of four bytes from the bus address `h` to the device, which is started last.
abbrev pub transfer : (h : ℕ) → List Write
transfer h =
    (h % 2 ^ 32, io_dma_src)
    ∷ (dma_base, io_dma_dst)
    ∷ (dma_size, io_dma_cnt)
    ∷ (dma_start, io_dma_cmd)
    ∷ []

-- Every answer is good.
pub record AllGood (a : Answers) : Type 0 where
  pub enable : a.pci_enable_device ≡ true
  pub region : a.pci_request_region ≡ true
  pub iomap : a.pci_iomap ≡ true
  pub irq : a.request_irq ≡ true
  pub mem : a.is_mem ≡ true
  pub buffer : (h : ℕ) × (a.dma_from ≡ some h)

-- The answers that the driver tests.
abbrev pub tested : Answers → Bool
tested a = a.pci_enable_device && a.pci_request_region && a.request_irq && a.is_mem

-- The ways `pci_probe` ends.
pub data Outcome (a : Answers) (dev : PciDev) (d : Driver) (p : Probed) : Type 0 where
  works :
      (good : AllGood a)
      → (p.ret ≡ ok 0)
      → (p.writes ≡ transfer good.buffer.0)
      → (pci_remove dev p.driver
          ≡ some (record {
            major = a.register_chrdev;
            pdev = some dev;
            held = left_behind a dev good.buffer.0 d.held;
          }))
      → Outcome a dev d p
  fails :
      tested a ≡ false
      → (p.ret ≡ ok 1)
      → (p.writes ≡ [])
      → (p.driver.held.chrdevs ≡ or_none a.register_chrdev d.held.chrdevs)
      → Outcome a dev d p
  crashes :
      tested a ≡ true
      → (a.pci_iomap ≡ false) ⊎ (a.dma_from ≡ none)
      → (p.ret ≡ undefined)
      → Outcome a dev d p

give_back_head : (x : ℕ) (xs : List ℕ) → give_back x (x ∷ xs) ≡ xs
unfolding give_back
give_back_head x xs = let e : (x == x) ≡ true = ground arith in rw e refl

abbrev with_device : (m h : ℕ) (dma_to : Option ℕ) → PciDev → Held → Held
with_device m h dma_to dev held = record {
  chrdevs = m ∷ held.chrdevs;
  enabled = dev.id ∷ held.enabled;
  regions = dev.id ∷ held.regions;
  mapped = dev.id ∷ held.mapped;
  irqs = dev.irq ∷ held.irqs;
  dma = or_none dma_to (h ∷ held.dma);
}

pci_probe-with_device :
    (a : Answers) (dev : PciDev) (m : ℕ) (d : Driver) (good : AllGood a)
    → a.register_chrdev ≡ some m
    → (pci_probe a dev d).driver ≡ record {
      major = some m;
      pdev = some dev;
      held = with_device m good.buffer.0 a.dma_to dev d.held;
    }
unfolding pci_probe take_region sanity_checks dma_test
pci_probe-with_device a dev m d good em =
    rw (em, good.enable, good.region, good.iomap, good.irq, good.mem, good.buffer.1) refl

-- If a second device of another place is probed behind a first, and every answer is good, then to
-- remove the first device takes out the handler and the major number of the second one and leaves
-- its own, while the region that it gives back is its own.
pub pci_remove-pci_probe-pci_probe :
    (a b : Answers) (x y : PciDev) (m n : ℕ) (d : Driver)
    → AllGood a
    → AllGood b
    → a.register_chrdev ≡ some m
    → b.register_chrdev ≡ some n
    → x.id ≢ y.id
    → (d' : Driver) × ((pci_remove x (pci_probe b y (pci_probe a x d).driver).driver ≡ some d')
        × ((d'.held.irqs ≡ x.irq ∷ d.held.irqs)
            × ((d'.held.chrdevs ≡ m ∷ d.held.chrdevs) × (d'.held.regions ≡ y.id ∷ d.held.regions))))
unfolding pci_remove give_back_major
pci_remove-pci_probe-pci_probe a b x y m n d good good' em en place =
    let first = pci_probe-with_device a x m d good em in
    let second = pci_probe-with_device b y n (pci_probe a x d).driver good' en in
    let other : (x.id == y.id) ≡ false = ground (arith, place) in
    rw (second, first)
      (
        _,
        (
          refl,
          (
            give_back_head y.irq _,
            (give_back_head n _, rw (give_back, other, give_back_head x.id d.held.regions) refl),
          ),
        ),
      )
