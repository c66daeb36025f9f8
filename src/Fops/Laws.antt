-- ===== src/Fops/Laws.antt =====
-- The file of four bytes keeps its size, and gives back what has been written.
use linux_kernel_module_chea.Base.{
  ℕ, ◌+◌, ◌-◌, ◌≤◌, ◌<◌, ◌≡◌, refl, min, Bool, true, false, ◌&&◌, none, some, List, ltb, leb,
  if◌then◌else◌, take, drop, length, overwrite, map, arith, get_or, length-take, length-drop,
  length-map, length-overwrite, get_or-overwrite, get_or-take, get_or-drop, Bool-cases, inl, inr,
  ◌⊎◌, ◌∙◌, sym, list_ext_or,
}
use linux_kernel_module_chea.Kernel.{Cell, User, FillsBuffer, ok, err, fault, nospc, ok_inj}
use linux_kernel_module_chea.Fops.{buflen, read_fixed, write_fixed}

-- The data fits behind the position.
abbrev pub fits : (len off : ℕ) → Bool
fits len off = ltb off buflen && leb (off + len) buflen

-- What a write leaves: a buffer of the same length, in which the range holds the user's bytes if
-- they fit, and nothing else has changed.
abbrev pub Stored : User → (len off : ℕ) → List Cell → List Cell → Type 0
Stored u len off d d' =
    (length d' ≡ buflen)
    × ((j : ℕ)
        → get_or d' j none ≡ (
            if fits len off && (leb off j && ltb j (off + len))
            then get_or (map some (u.copy_from_user len).0) (j - off) none
            else get_or d j none))

overwrite-Stored :
    (u : User) (len off : ℕ) (d : List Cell)
    → FillsBuffer u
    → length d ≡ buflen
    → fits len off ≡ true
    → Stored u len off d (overwrite d off (map some (u.copy_from_user len).0))
overwrite-Stored u len off d fill size fit =
    let bytes = map some (u.copy_from_user len).0 in
    let n : length bytes ≡ len = length-map (u.copy_from_user len).0 some ∙ fill.fills len in
    (
      length-overwrite d off bytes ∙ size,
      λ j. get_or-overwrite d off bytes j none (ground (arith, n)) ∙ rw (fit, n) refl,
    )

same-Stored :
    (u : User) (len off : ℕ) (d : List Cell)
    → length d ≡ buflen
    → fits len off ≡ false
    → Stored u len off d d
same-Stored u len off d size fit = (size, λ j. rw fit refl)

-- A write never leaves the buffer: it stays four bytes long. If the user's bytes do not all fit
-- behind the position nothing changes; otherwise they are in their range, as the copy left them,
-- and no other byte has changed.
pub write_fixed-Stored :
    (u : User) (len off : ℕ) (d : List Cell)
    → FillsBuffer u
    → length d ≡ buflen
    → Stored u len off d (write_fixed u len off d).data'
unfolding write_fixed
write_fixed-Stored u len off d fill size = elim (Bool-cases (leb buflen off)) [
  | inl past ↦ rw past (same-Stored u len off d size (ground arith))
  | inr inside ↦ elim (Bool-cases (ltb (buflen - off) len)) [
    | inl long ↦ rw (inside, long) (same-Stored u len off d size (ground arith))
    | inr room ↦
        let stored = overwrite-Stored u len off d fill size (ground arith) in
        rw (inside, room)
          (elim (Bool-cases (u.copy_from_user len).1) [
            | inl bad ↦ rw bad stored
            | inr good ↦ rw good stored
          ])
  ]
]

-- The outcome of a read of what is there at most, by cases on the copy to the user.
read_fixed_cases :
    (u : User) (len off : ℕ) (d : List Cell)
    → len ≤ buflen - off
    → (((read_fixed u len off d).ret ≡ ok len)
        × ((read_fixed u len off d).out ≡ take len (drop off d)))
      ⊎ ((read_fixed u len off d).ret ≡ err fault)
unfolding read_fixed
read_fixed_cases u len off d fit = elim (Bool-cases (leb buflen off)) [
  | inl past ↦ let nothing : len ≡ 0 = ground arith in rw (past, nothing) (inl (refl, refl))
  | inr inside ↦
      let all : min len (buflen - off) ≡ len = omega arith in
      rw (inside, all)
        (elim (Bool-cases (u.copy_to_user (take len (drop off d)))) [
          | inl bad ↦ rw bad (inr refl)
          | inr good ↦ rw good (inl (refl, refl))
        ])
]

write_fixed_cases :
    (u : User) (len off : ℕ) (d : List Cell) (n : ℕ)
    → (write_fixed u len off d).ret ≡ ok n
    → ((n ≡ 0) × (buflen ≤ off)) ⊎ ((n ≡ len) × (fits len off ≡ true))
unfolding write_fixed
write_fixed_cases u len off d n h = elim (Bool-cases (leb buflen off)) [
  | inl past ↦
      let r : (write_fixed u len off d).ret ≡ ok 0 = rw past refl in
      inl (ok_inj (sym h ∙ r), ground arith)
  | inr inside ↦ elim (Bool-cases (ltb (buflen - off) len)) [
    | inl long ↦
        let r : (write_fixed u len off d).ret ≡ err nospc = rw (inside, long) refl in cc (sym h ∙ r)
    | inr room ↦ elim (Bool-cases (u.copy_from_user len).1) [
      | inl bad ↦
          let r : (write_fixed u len off d).ret ≡ err fault = rw (inside, room, bad) refl in
          cc (sym h ∙ r)
      | inr good ↦
          let r : (write_fixed u len off d).ret ≡ ok len = rw (inside, room, good) refl in
          inr (ok_inj (sym h ∙ r), ground arith)
    ]
  ]
]

take-drop :
    (u : User) (len off : ℕ) (d d' : List Cell)
    → FillsBuffer u
    → Stored u len off d d'
    → fits len off ≡ true
    → take len (drop off d') ≡ take len (map some (u.copy_from_user len).0)
take-drop u len off d d' fill st fit =
    let bytes = map some (u.copy_from_user len).0 in
    let n : length bytes ≡ len = length-map (u.copy_from_user len).0 some ∙ fill.fills len in
    list_ext_or (take len (drop off d')) (take len bytes) none
      (ground
        (arith, length-take len (drop off d'), length-drop off d', length-take len bytes, n, st.0))
      (λ k lt.
        let short : k < len = omega (arith, length-take len (drop off d')) in
        let index : off + k - off ≡ k = omega arith in
        let there : get_or d' (off + k) none ≡ get_or bytes k none =
          st.1 (off + k) ∙ rw index (ground arith) in
        get_or-take len (drop off d') k none short
        ∙ get_or-drop off d' k none
        ∙ there
        ∙ sym (get_or-take len bytes k none short))

-- On a buffer of four bytes: after a write that returns `n`, a read of `n` bytes at the same
-- position that does not fault returns exactly the first `n` bytes that the write took from the
-- user.
pub read_fixed-write_fixed :
    (u u' : User) (len off : ℕ) (d : List Cell) (n m : ℕ)
    → FillsBuffer u
    → length d ≡ buflen
    → (write_fixed u len off d).ret ≡ ok n
    → (read_fixed u' n off (write_fixed u len off d).data').ret ≡ ok m
    → (m ≡ n)
      × ((read_fixed u' n off (write_fixed u len off d).data').out
          ≡ take n (map some (u.copy_from_user len).0))
read_fixed-write_fixed u u' len off d n m fill size h h' =
    let d' = (write_fixed u len off d).data' in
    let st = write_fixed-Stored u len off d fill size in
    let fit : n ≤ buflen - off = elim (write_fixed_cases u len off d n h) [
      | inl (e, past) ↦ omega arith
      | inr (e, f) ↦ ground arith
    ] in
    elim (read_fixed_cases u' n off d' fit) [
      | inr bad ↦ cc
      | inl (ret, out) ↦ (
        ok_inj (sym h' ∙ ret),
        out ∙ (elim (write_fixed_cases u len off d n h) [
          | inl (e, past) ↦ rw e refl
          | inr (e, f) ↦ rw e (take-drop u len off d d' fill st f)
        ]),
      )
    ]
