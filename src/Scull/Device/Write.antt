-- ===== src/Scull/Device/Write.antt =====
-- `scull_write` against the bytes that the device holds at each position.
use linux_kernel_module_chea.Base.{
  ℕ, ◌+◌, ◌-◌, ◌≤◌, ◌<◌, ◌≡◌, ◌⊎◌, refl, max, true, false, none, some, List, arith, get_or,
  get_or-get_elem?, map, if◌then◌else◌, Bool-cases, inl, inr, ap, ◌∙◌,
}
use linux_kernel_module_chea.Kernel.{ok_inj, FillsBuffer, Env, Errno, err, ok, fault, restartsys}
use linux_kernel_module_chea.Scull.Device.Defs.{Dev, Place, scull_follow}
use linux_kernel_module_chea.Scull.Device.Io.{Done, stop, scull_write, write_at}
use linux_kernel_module_chea.Scull.Device.Shape.{IsShaped, IsQset}
use linux_kernel_module_chea.Scull.Device.Follow.{
  scull_follow-All, scull_follow-block_at, scull_follow-found,
}
use linux_kernel_module_chea.Scull.Device.Place.{
  IsGeometry, InReach, place_of, place_of-IsPlace, place-place_of,
}
use linux_kernel_module_chea.Scull.Device.Cells.{
  cell_of, covers, Stored, SameCells, Kept, Wrote, no_memory, faulted, wrote, Wrote_from,
}
use linux_kernel_module_chea.Scull.Device.Wrote.{taken, stored, write_set-Wrote}
use linux_kernel_module_chea.Scull.Device.Positions.{
  contents, in_range, pick, covered-offset, covers-in_range,
}

-- The walk to the list item changes no byte, whatever the place.
pub write_at-Wrote :
    (dev : Dev) (e : Env) (count pos : ℕ) (at : Place)
    → at.s_pos < dev.qset
    → at.q_pos < dev.quantum
    → IsShaped dev
    → FillsBuffer e.user
    → Wrote dev at pos
        (taken dev at count)
        (stored dev e at count)
        (write_at dev e count pos (some at))
unfolding write_at
write_at-Wrote dev e count pos at in_set in_quantum shaped fill =
    let f = scull_follow dev.data' at.item e.allocs in
    let shaped' =
      scull_follow-All (IsQset dev.quantum dev.qset) tt dev.data' at.item e.allocs shaped in
    let kept : Kept dev (record dev { data' = f.sets }) = record {
      quantum = refl;
      qset = refl;
      size = refl;
      shaped = shaped';
    } in
    let same : SameCells dev (record dev { data' = f.sets }) =
      λ i s k. ap (λ (o : _). cell_of o k) (scull_follow-block_at dev.data' at.item e.allocs i s) in
    elim (Bool-cases f.found) [
      | inr lost ↦ rw (lost, write_at) (no_memory kept same)
      | inl found ↦
          let far = scull_follow-found dev.data' at.item e.allocs found in
          let got = get_or-get_elem? f.sets at.item none far in
          rw (found, got, write_at)
            (Wrote_from kept same (
              write_set-Wrote (record dev { data' = f.sets }) e at count pos fill shaped' far in_set
                in_quantum _ _ got))
    ]

scull_write-Wrote :
    (dev : Dev) (e : Env) (count pos : ℕ)
    → IsGeometry dev.quantum dev.qset
    → InReach dev.quantum dev.qset pos
    → IsShaped dev
    → FillsBuffer e.user
    → e.interrupted ≡ false
    → (let at = place_of dev.quantum dev.qset pos in
        Wrote dev at pos (taken dev at count) (stored dev e at count) (scull_write dev e count pos))
unfolding scull_write
scull_write-Wrote dev e count pos g reach shaped fill calm =
    let is = place_of-IsPlace g pos in
    rw (calm, place-place_of g pos reach)
      (write_at-Wrote dev e count pos (place_of dev.quantum dev.qset pos) is.in_set is.in_quantum
        shaped fill)

-- What a successful write leaves: the bytes that came from the user at `pos` to `pos + n - 1`, all
-- other bytes and the geometry as they were, the position advanced, and the size grown to cover the
-- end of the write.
abbrev pub Stores : Dev → Env → ℕ → ℕ → ℕ → Done → Type 0
Stores dev e count pos n r =
    (n ≡ taken dev (place_of dev.quantum dev.qset pos) count)
    × (r.f_pos ≡ pos + n)
    × (r.dev.size ≡ max dev.size (pos + n))
    × (r.dev.quantum ≡ dev.quantum)
    × (r.dev.qset ≡ dev.qset)
    × ((j : ℕ)
        → contents r.dev j ≡ (
            if in_range pos n j
            then get_or (map some (e.user.copy_from_user n).0) (j - pos) none
            else contents dev j))
    × IsShaped r.dev

contents-Stored :
    (dev d : Dev) (pos n : ℕ) (bytes : List ℕ)
    → IsGeometry dev.quantum dev.qset
    → (place_of dev.quantum dev.qset pos).q_pos + n ≤ dev.quantum
    → Kept dev d
    → Stored dev (place_of dev.quantum dev.qset pos) n bytes d
    → (j : ℕ)
    → contents d j
      ≡ (if in_range pos n j then get_or (map some bytes) (j - pos) none else contents dev j)
contents-Stored dev d pos n bytes g fits kept st j =
    let at = place_of dev.quantum dev.qset pos in
    let q = place_of dev.quantum dev.qset j in
    let here = covers-in_range g pos n fits j in
    rw (kept.quantum, kept.qset)
      (st q.item q.s_pos q.q_pos
        ∙ pick _ (covers at n q.item q.s_pos q.q_pos) (in_range pos n j) here
            (λ h. ap (λ (t : ℕ). get_or (map some bytes) t none) (covered-offset g pos n fits j h)))

Wrote-Stores :
    (dev : Dev) (e : Env) (count pos n : ℕ)
    → IsGeometry dev.quantum dev.qset
    → (r : Done)
    → (let at = place_of dev.quantum dev.qset pos in
        Wrote dev at pos (taken dev at count) (stored dev e at count) r)
    → r.ret ≡ ok n
    → Stores dev e count pos n r
Wrote-Stores dev e count pos n g r (no_memory k s) h = cc
Wrote-Stores dev e count pos n g r (faulted k s) h = cc
Wrote-Stores dev e count pos n g r (wrote {d} k s) h =
    let at = place_of dev.quantum dev.qset pos in
    let n-taken : taken dev at count ≡ n = ok_inj h in
    let in_quantum = (place_of-IsPlace g pos).in_quantum in
    rw (← n-taken) (
      refl,
      refl,
      ground arith,
      k.quantum,
      k.qset,
      contents-Stored dev d pos (taken dev at count) (stored dev e at count) g (omega arith) k s,
      k.shaped,
    )

-- A wait for the lock that a signal ends changes nothing.
pub scull_write_late :
    (dev : Dev) (e : Env) (count pos : ℕ)
    → e.interrupted ≡ true
    → scull_write dev e count pos ≡ stop dev pos (err restartsys)
unfolding scull_write
scull_write_late dev e count pos h = rw h

-- On a device in shape, with a positive geometry whose product fits an `int` and at a position
-- whose list item an `int` can count: a write that returns `n` has stored the `n` bytes that it
-- took from the user at the position, has changed no other byte nor the geometry, has advanced the
-- position by `n`, has grown the size to cover the end of the write, and has taken `count` bytes
-- or what is left of the quantum, whichever is less. It leaves the device in shape.
pub scull_write-Stores :
    (dev : Dev) (e : Env) (count pos n : ℕ)
    → IsGeometry dev.quantum dev.qset
    → InReach dev.quantum dev.qset pos
    → IsShaped dev
    → FillsBuffer e.user
    → (scull_write dev e count pos).ret ≡ ok n
    → Stores dev e count pos n (scull_write dev e count pos)
scull_write-Stores dev e count pos n g reach shaped fill h = elim (Bool-cases e.interrupted) [
  | inl late ↦ cc (ap (λ (r : Done). r.ret) (scull_write_late dev e count pos late))
  | inr calm ↦
      Wrote-Stores dev e count pos n g _
        (scull_write-Wrote dev e count pos g reach shaped fill calm) h
]

-- What a write that fails leaves: position and size as they were, and the bytes too, unless the
-- copy from the user failed, which may spoil those that were to be written.
abbrev pub Spares : Dev → Env → ℕ → ℕ → Done → Type 0
Spares dev e count pos r =
    (r.f_pos ≡ pos)
    × (r.dev.size ≡ dev.size)
    × ((j : ℕ)
        → (contents r.dev j ≡ contents dev j)
          ⊎ ((r.ret ≡ err fault)
              × (in_range pos (taken dev (place_of dev.quantum dev.qset pos) count) j ≡ true)))
    × IsShaped r.dev

Wrote-Spares :
    (dev : Dev) (e : Env) (count pos : ℕ) (x : Errno)
    → IsGeometry dev.quantum dev.qset
    → (r : Done)
    → (let at = place_of dev.quantum dev.qset pos in
        Wrote dev at pos (taken dev at count) (stored dev e at count) r)
    → r.ret ≡ err x
    → Spares dev e count pos r
Wrote-Spares dev e count pos x g r (no_memory k s) h =
    (refl, k.size, λ j. inl (rw (k.quantum, k.qset) (s _ _ _)), k.shaped)
Wrote-Spares dev e count pos x g r (faulted {d} k s) h =
    let at = place_of dev.quantum dev.qset pos in
    let in_quantum = (place_of-IsPlace g pos).in_quantum in
    let new =
      contents-Stored dev d pos (taken dev at count) (stored dev e at count) g (omega arith) k s in
    (
      refl,
      k.size,
      λ j. elim (Bool-cases (in_range pos (taken dev at count) j)) [
        | inl hit ↦ inr (refl, hit)
        | inr miss ↦ inl (new j ∙ rw miss)
      ],
      k.shaped,
    )
Wrote-Spares dev e count pos x g r (wrote {d} k s) h = cc

-- On a device in shape, with a positive geometry whose product fits an `int` and at a position
-- whose list item an `int` can count: a write that fails leaves position and size as they were,
-- and every byte, except that a failing copy from the user may have spoilt the bytes that were to
-- be written. The device stays in shape.
pub scull_write-Spares :
    (dev : Dev) (e : Env) (count pos : ℕ) (x : Errno)
    → IsGeometry dev.quantum dev.qset
    → InReach dev.quantum dev.qset pos
    → IsShaped dev
    → FillsBuffer e.user
    → (scull_write dev e count pos).ret ≡ err x
    → Spares dev e count pos (scull_write dev e count pos)
scull_write-Spares dev e count pos x g reach shaped fill h = elim (Bool-cases e.interrupted) [
  | inl late ↦ rw (scull_write_late dev e count pos late) (refl, refl, λ j. inl refl, shaped)
  | inr calm ↦
      Wrote-Spares dev e count pos x g _
        (scull_write-Wrote dev e count pos g reach shaped fill calm) h
]
