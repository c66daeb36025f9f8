-- ===== src/Scull/Device/Calls.antt =====
-- Every call keeps the shape of a device.
use linux_kernel_module_chea.Base.{
  ℕ, ◌*◌, ◌/◌, ◌%◌, ◌<◌, ◌≡◌, refl, Bool, true, false, Option, none, some, List, arith, All, ◌-◌,
  min, sym, Bool-cases, inl, inr, Option-cases, leb,
}
use linux_kernel_module_chea.Scull.Device.Place.{IsGeometry, place_of-IsPlace}
use linux_kernel_module_chea.Kernel.{Env, FillsBuffer}
use linux_kernel_module_chea.Scull.Params.{Params}
use linux_kernel_module_chea.Scull.Device.Defs.{Qset, Dev, Place, place, scull_follow}
use linux_kernel_module_chea.Scull.Device.Late.{
  outside, with_locals, without_locals, read_locked, scull_read_late, write_locked,
  scull_write_late, outside-IsShaped,
}
use linux_kernel_module_chea.Scull.Device.Io.{
  Done, scull_open, scull_write, read_at, read_block, write_at, block_at,
}
use linux_kernel_module_chea.Scull.Device.Shape.{IsShaped, IsQset, scull_trim-IsShaped}
use linux_kernel_module_chea.Scull.Device.Follow.{scull_follow-All}
use linux_kernel_module_chea.Scull.Device.Cells.{Wrote, no_memory, faulted, wrote}
use linux_kernel_module_chea.Scull.Device.Write.{write_at-Wrote}

-- A place that the code computes is in the set and in the quantum.
place_bounds :
    (quantum qset pos : ℕ) (at : Place)
    → place quantum qset pos ≡ some at
    → (at.s_pos < qset) × (at.q_pos < quantum)
unfolding place
place_bounds quantum qset pos at h =
    let g : IsGeometry quantum qset = record {
      quantum_pos = ground arith;
      qset_pos = ground arith;
      itemsize_int = ground arith;
    } in
    let is = place_of-IsPlace g pos in
    let s : pos % (quantum * qset) / quantum ≡ at.s_pos = ground arith in
    let q : pos % (quantum * qset) % quantum ≡ at.q_pos = ground arith in
    (rw s at is.in_set, rw q at is.in_quantum)

Wrote-Kept :
    {dev : Dev} {at : Place} {pos n : ℕ} {bytes : List ℕ} {r : Done}
    → Wrote dev at pos n bytes r
    → IsShaped r.dev × ((r.dev.quantum ≡ dev.quantum) × (r.dev.qset ≡ dev.qset))
Wrote-Kept (no_memory k s) = (k.shaped, (k.quantum, k.qset))
Wrote-Kept (faulted k s) = (k.shaped, (k.quantum, k.qset))
Wrote-Kept (wrote k s) = (k.shaped, (k.quantum, k.qset))

same_geometry :
    (dev : Dev) (r : Done)
    → (r.dev.quantum ≡ dev.quantum) × (r.dev.qset ≡ dev.qset)
    → without_locals dev r ≡ r
same_geometry dev r e =
    λ i. record r { dev = record r.dev { quantum = sym e.0 i; qset = sym e.1 i } }

-- On a device in shape, a write that has the device's own geometry is the one that does not wait.
pub scull_write_late-scull_write :
    (dev : Dev) (e : Env) (count pos : ℕ)
    → IsShaped dev
    → FillsBuffer e.user
    → scull_write_late dev.quantum dev.qset dev e count pos ≡ scull_write dev e count pos
unfolding scull_write_late scull_write write_locked
scull_write_late-scull_write dev e count pos h fill = elim (Bool-cases e.interrupted) [
  | inl late ↦ rw late refl
  | inr calm ↦ rw calm (elim (Option-cases (place dev.quantum dev.qset pos)) [
    | inl e0 ↦ rw (e0, write_at) refl
    | inr (at, e0) ↦
        let b = place_bounds dev.quantum dev.qset pos at e0 in
        let within =
          outside-IsShaped dev at (min count (dev.quantum - at.q_pos)) h b.0 (omega (arith, b.1)) in
        rw (e0, within)
          (same_geometry dev (write_at dev e count pos (some at))
            (Wrote-Kept (write_at-Wrote dev e count pos at b.0 b.1 h fill)).1)
  ])
]

scull_write-IsShaped :
    (dev : Dev) (e : Env) (count pos : ℕ)
    → IsShaped dev
    → FillsBuffer e.user
    → IsShaped (scull_write dev e count pos).dev
unfolding scull_write
scull_write-IsShaped dev e count pos h fill = elim (Bool-cases e.interrupted) [
  | inl late ↦ rw late h
  | inr calm ↦ rw calm (elim (Option-cases (place dev.quantum dev.qset pos)) [
    | inl e0 ↦ rw (e0, write_at) h
    | inr (at, e0) ↦
        let b = place_bounds dev.quantum dev.qset pos at e0 in
        rw e0 (Wrote-Kept (write_at-Wrote dev e count pos at b.0 b.1 h fill)).0
  ])
]

read_block-sets :
    (dev : Dev) (e : Env) (at : Place) (count pos : ℕ) (o : Option _)
    → (read_block dev e.user at count pos o).dev ≡ dev
unfolding read_block
read_block-sets dev e at count pos none = refl
read_block-sets dev e at count pos (some b) = ground arith

-- A read at most lengthens the list by empty items.
read_at-All :
    (P : Qset → Type 0) (dev : Dev) (e : Env) (count pos : ℕ) (o : Option Place)
    → P none
    → All P dev.data'
    → All P (read_at dev e count pos o).dev.data'
unfolding read_at
read_at-All P dev e count pos none p h = h
read_at-All P dev e count pos (some at) p h =
    let f = scull_follow dev.data' at.item e.allocs in
    let shaped = scull_follow-All P p dev.data' at.item e.allocs h in
    elim (Bool-cases f.found) [
      | inl found ↦
          rw (found, read_at)
            (rw
              (read_block-sets (record dev { data' = f.sets }) e at count pos
                (block_at f.sets at.item at.s_pos))
              shaped)
      | inr lost ↦ rw (lost, read_at) shaped
    ]

pub open-IsShaped :
    (p : Params) (truncate interrupted : Bool) (dev : Dev)
    → IsShaped dev
    → IsShaped (scull_open p truncate interrupted dev).0
unfolding scull_open
open-IsShaped p true true dev h = h
open-IsShaped p true false dev h = scull_trim-IsShaped p dev
open-IsShaped p false interrupted dev h = h

read_locked-IsShaped :
    (quantum qset : ℕ) (dev : Dev) (e : Env) (count pos : ℕ) (o : Option Place)
    → IsShaped dev
    → IsShaped (read_locked quantum qset dev e count pos o).dev
unfolding read_locked
read_locked-IsShaped quantum qset dev e count pos none h = h
read_locked-IsShaped quantum qset dev e count pos (some at) h =
    elim (Bool-cases (outside dev.data' at (min count (quantum - at.q_pos)))) [
      | inl beyond ↦ rw (beyond, read_locked) h
      | inr within ↦
          rw (within, read_locked)
            (read_at-All (IsQset dev.quantum dev.qset) (with_locals quantum qset dev) e count pos
              (some at) tt h)
    ]

pub scull_read_late-IsShaped :
    (quantum qset : ℕ) (dev : Dev) (e : Env) (count pos : ℕ)
    → IsShaped dev
    → IsShaped (scull_read_late quantum qset dev e count pos).dev
unfolding scull_read_late
scull_read_late-IsShaped quantum qset dev e count pos h = elim (Bool-cases e.interrupted) [
  | inl late ↦ rw late h
  | inr calm ↦ rw calm (elim (Bool-cases (leb dev.size pos)) [
    | inl past ↦ rw past h
    | inr inside ↦
        rw inside (read_locked-IsShaped quantum qset dev e _ pos (place quantum qset pos) h)
  ])
]

pub scull_write_late-IsShaped :
    (quantum qset : ℕ) (dev : Dev) (e : Env) (count pos : ℕ)
    → quantum ≡ dev.quantum
    → qset ≡ dev.qset
    → IsShaped dev
    → FillsBuffer e.user
    → IsShaped (scull_write_late quantum qset dev e count pos).dev
scull_write_late-IsShaped quantum qset dev e count pos eq es h fill =
    rw (eq, es, scull_write_late-scull_write dev e count pos h fill)
      (scull_write-IsShaped dev e count pos h fill)
