-- ===== src/QemuEdu.antt =====
-- kernel_modules/qemu_edu.c: the PCI driver of the device `edu` of QEMU.
pub mod Registers
pub mod Probing
mod Tests
use linux_kernel_module_chea.Base.{
  ℕ, suc, ◌+◌, ◌%◌, ◌^◌, Bool, true, false, not, ◌&&◌, ◌||◌, Option, none, some, List, [], ◌∷◌,
  ◌==◌, if◌then◌else◌,
}
use linux_kernel_module_chea.Kernel.{Ret, ok, err, undefined, fault}

-- The registers of a device behind `mmio`: a read may change the device, too.
pub record Io : Type 1 where
  pub State : Type 0
  pub ioread32 : (addr : ℕ) → State → ℕ × State
  pub iowrite32 : (value addr : ℕ) → State → State

abbrev pub io_irq_status : ℕ
io_irq_status = 36

abbrev pub io_irq_ack : ℕ
io_irq_ack = 100

abbrev pub io_dma_src : ℕ
io_dma_src = 128

abbrev pub io_dma_dst : ℕ
io_dma_dst = 136

abbrev pub io_dma_cnt : ℕ
io_dma_cnt = 144

abbrev pub io_dma_cmd : ℕ
io_dma_cmd = 152

abbrev pub dma_base : ℕ
dma_base = 262144

-- `DMA_CMD | DMA_IRQ`.
abbrev pub dma_start : ℕ
dma_start = 5

abbrev pub dma_size : ℕ
dma_size = 4

pub data IrqReturn : Type 0 where
  irq_none irq_handled : IrqReturn

-- The outcome of a call of `read` or `write`: the device, `*off`, the result, and what has been
-- copied to the user.
pub record Served (S : Type 0) : Type 0 where
  pub device : S
  pub off : ℕ
  pub ret : Ret
  pub out : Option ℕ

module _ (io : Io) where
  -- `devi` is what stands behind `dev`.
  unfoldable pub irq_handler : (major devi : ℕ) → io.State → io.State × IrqReturn
  irq_handler major devi s =
      if devi == major
      then (let (irq_status, s') = io.ioread32 io_irq_status s in
          (io.iowrite32 irq_status io_irq_ack s', irq_handled))
      else (s, irq_none)

  -- `faults`: whether `copy_to_user` leaves some bytes out.
  unfoldable pub read : (faults : Bool) → (len off : ℕ) → io.State → Served io.State
  read faults len off s =
      if not (off % 4 == 0) || len == 0
      then record { device = s; off = off; ret = ok 0; out = none }
      else (let (kbuf, s') = io.ioread32 off s in
          if faults
          then record { device = s'; off = off; ret = err fault; out = none }
          else record { device = s'; off = off + 1; ret = ok 4; out = some kbuf })

  -- `from_user`: the four bytes behind `buf` as a number, or `none` if some cannot be copied.
  unfoldable pub write : (from_user : Option ℕ) → (len off : ℕ) → io.State → Served io.State
  write from_user len off s =
      let done : io.State → Ret → Served io.State =
        λ s' r. record { device = s'; off = off; ret = r; out = none } in
      if off % 4 == 0
      then elim from_user [
        | none ↦ done s (err fault)
        | some kbuf ↦
            if not (len == 4) then done s (err fault) else done (io.iowrite32 kbuf off s) (ok len)
      ]
      else done s (ok len)

-- The position and the result. `whence` is not read.
unfoldable pub llseek : (off whence : ℕ) → ℕ × Ret
llseek off whence = (off, ok off)

-- `struct pci_dev`: the device by its place on the bus, and its interrupt line.
pub record PciDev : Type 0 where
  pub id : ℕ
  pub irq : ℕ

-- What the drivers hold of the kernel: the major numbers, the devices that are enabled, whose region
-- is taken and whose registers are mapped, the handlers by their line, and the buffers for DMA.
pub record Held : Type 0 where
  pub chrdevs : List ℕ
  pub enabled : List ℕ
  pub regions : List ℕ
  pub mapped : List ℕ
  pub irqs : List ℕ
  pub dma : List ℕ

-- The variables `major` and `pdev` of the module, and what it holds. `major` is `none` for the error
-- number that `register_chrdev` returned. Of `mmio`, only whether it is null is kept, by the answers.
pub record Driver : Type 0 where
  pub major : Option ℕ
  pub pdev : Option PciDev
  pub held : Held

-- The answers of the kernel to one `pci_probe`. `mmio` is false for a null pointer, and a buffer for
-- DMA is its bus address.
pub record Answers : Type 0 where
  pub register_chrdev : Option ℕ
  pub pci_enable_device : Bool
  pub pci_request_region : Bool
  pub pci_iomap : Bool
  pub request_irq : Bool
  pub is_mem : Bool
  pub dma_from : Option ℕ
  pub dma_to : Option ℕ

-- A write to a register: the value and the place.
abbrev pub Write : Type 0
Write = ℕ × ℕ

-- The outcome of `pci_probe`, with the writes to the registers in order.
pub record Probed : Type 0 where
  pub driver : Driver
  pub writes : List Write
  pub ret : Ret

abbrev or_none : Option ℕ → List ℕ → List ℕ
or_none none xs = xs
or_none (some x) xs = x ∷ xs

-- The test of DMA. The handle is cut to 32 bits.
unfoldable pub dma_test : (dma_from dma_to : Option ℕ) → Driver → Probed
dma_test none dma_to d = record { driver = d; writes = []; ret = undefined }
dma_test (some h) dma_to d = record {
  driver = record d { held = record d.held { dma = or_none dma_to (h ∷ d.held.dma) } };
  writes =
      (h % 2 ^ 32, io_dma_src)
      ∷ (dma_base, io_dma_dst)
      ∷ (dma_size, io_dma_cnt)
      ∷ (dma_start, io_dma_cmd)
      ∷ [];
  ret = ok 0;
}

-- `return 1` behind `error`.
abbrev failed : Driver → Probed
failed d = record { driver = d; writes = []; ret = ok 1 }

-- The part behind `request_irq`. The registers are read through `mmio` before the test of DMA.
unfoldable pub sanity_checks : Answers → Driver → Probed
unfolding dma_test
sanity_checks a d =
    if a.is_mem
    then (if a.pci_iomap
        then dma_test a.dma_from a.dma_to d
        else record { driver = d; writes = []; ret = undefined })
    else failed d

-- The part behind `pci_enable_device`.
unfoldable pub take_region : Answers → PciDev → Driver → Probed
unfolding sanity_checks
take_region a dev d =
    let h = record d.held { regions = dev.id ∷ d.held.regions } in
    let h' = if a.pci_iomap then record h { mapped = dev.id ∷ h.mapped } else h in
    let h'' = record h' { irqs = dev.irq ∷ h'.irqs } in
    if a.pci_request_region
    then (if a.request_irq
        then sanity_checks a (record d { held = h'' })
        else failed (record d { held = h' }))
    else failed d

-- The answer of `register_chrdev` is not tested.
unfoldable pub pci_probe : Answers → PciDev → Driver → Probed
unfolding take_region
pci_probe a dev d =
    let h = record d.held { chrdevs = or_none a.register_chrdev d.held.chrdevs } in
    let d' : Driver = record { major = a.register_chrdev; pdev = some dev; held = h } in
    let h' = record h { enabled = dev.id ∷ h.enabled } in
    if a.pci_enable_device then take_region a dev (record d' { held = h' }) else failed d'

-- `x` is given back: its first occurrence is taken out.
unfoldable pub give_back : ℕ → List ℕ → List ℕ
give_back x [] = []
give_back x (y ∷ ys) = let rest = give_back x ys in if x == y then ys else y ∷ rest

unfoldable pub give_back_major : Option ℕ → List ℕ → List ℕ
unfolding give_back
give_back_major none xs = xs
give_back_major (some m) xs = give_back m xs

-- The line is that of `pdev`, the region that of `dev`. `none`: `pdev` is a null pointer.
unfoldable pub pci_remove : PciDev → Driver → Option Driver
unfolding give_back give_back_major
pci_remove dev d = elim d.pdev [
  | none ↦ none
  | some p ↦ some (record d {
    held = record d.held {
      irqs = give_back p.irq d.held.irqs;
      regions = give_back dev.id d.held.regions;
      chrdevs = give_back_major d.major d.held.chrdevs;
    };
  })
]
