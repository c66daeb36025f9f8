-- ===== src/Memfile/Transfer.antt =====
-- `read` and `write` against the bytes of the file.
use linux_kernel_module_chea.Base.{
  ℕ, zero, suc, ◌+◌, ◌-◌, ◌%◌, ◌^◌, ◌<◌, ◌≡◌, ◌≢◌, refl, min, max, Bool, false, ◌&&◌, Option, none,
  some, List, [], ◌∷◌, ltb, leb, if◌then◌else◌, take, drop, length, overwrite, map, arith, get_or,
  length-take, length-drop, length-map, length-overwrite, get_or-overwrite, get_or-take,
  get_or-drop, get_or_beyond, Bool-cases, inl, inr, ap, ◌∙◌, sym,
}
use mathlib.Core.Path.{subst}
use native.Mathlib.Decide.{dec_lt}
use linux_kernel_module_chea.Kernel.{Cell, User, FillsBuffer, ok, err, fault, nospc}
use linux_kernel_module_chea.Memfile.{
  DynArr, Moved, dyn_arr_reserve, grow, fill_gap, read, read_buf, write, write_buf, store,
}
use linux_kernel_module_chea.Memfile.Bytes.{IsArray, Reserved, reserved_at, finish-Reserved}

-- The byte at a position of the file; `none` beyond its end.
pub contents_of : Option (List Cell) → (used j : ℕ) → Cell
contents_of none used j = none
contents_of (some b) used j = if ltb j used then get_or b j none else none

abbrev pub contents : DynArr → ℕ → Cell
contents a j = contents_of a.buf a.used j

pub record IsFile (a : DynArr) : Type 0 where
  pub memory : List Cell
  pub array : IsArray a memory

-- What a write leaves: the file reaches to its end at least, and holds the user's bytes in its
-- range, zeros in the gap before it, and else what it has held.
pub record Wrote (u : User) (len off : ℕ) (a a' : DynArr) : Type 0 where
  pub used : a'.used ≡ max a.used (off + len)
  pub bytes :
      (j : ℕ)
      → contents a' j ≡ (
          if leb off j && ltb j (off + len)
          then get_or (map some (u.copy_from_user len).0) (j - off) none
          else (if leb a.used j && ltb j off then some 0 else contents a j))
  pub file : IsFile a'

-- The outcomes of a write. One that faults has written what the copy left.
pub data Writes (u : User) (len off : ℕ) (a : DynArr) : Moved → Type 0 where
  wrote :
      {r : Moved}
      → r.ret ≡ ok len
      → r.off ≡ off + len
      → Wrote u len off a r.data'
      → Writes u len off a r
  faulted :
      {r : Moved}
      → r.ret ≡ err fault
      → r.off ≡ off
      → Wrote u len off a r.data'
      → Writes u len off a r
  no_room :
      {r : Moved} → r.ret ≡ err nospc → r.off ≡ off → r.data'.buf ≡ none → Writes u len off a r

get_or-some : (bytes : List ℕ) (k : ℕ) → k < length bytes → get_or (map some bytes) k none ≢ none
get_or-some [] k h = absurd (omega arith)
get_or-some (b ∷ bs) zero h = λ e. cc
get_or-some (b ∷ bs) (suc k) h = get_or-some bs k (omega arith)

module _ (u : User) (fill : FillsBuffer u) (len off : ℕ) (a : DynArr) (b : List Cell)
    (is : IsArray a b) (a' : DynArr) (rv : Reserved off len b a a') where
  abbrev bytes : List Cell
  bytes = map some (u.copy_from_user len).0

  abbrev after : DynArr
  after = record a' { buf = some (overwrite rv.memory off bytes) }

  length-bytes : length bytes ≡ len
  length-bytes = length-map (u.copy_from_user len).0 some ∙ fill.fills len

  after-bytes :
      (j : ℕ)
      → get_or (overwrite rv.memory off bytes) j none ≡ (
          if leb off j && ltb j (off + len)
          then get_or bytes (j - off) none
          else reserved_at off a.used b j)
  after-bytes j =
      let inside =
        get_or-overwrite rv.memory off bytes j none
          (omega (arith, length-bytes, rv.fits, rv.length_size)) in
      ground (arith, inside, length-bytes, rv.bytes j)

  after-stored : (j : ℕ) → j < a'.used → get_or (overwrite rv.memory off bytes) j none ≢ none
  after-stored j h e = elim (Bool-cases (leb off j && ltb j (off + len))) [
    | inl hit ↦
        let given : get_or (overwrite rv.memory off bytes) j none ≡ get_or bytes (j - off) none =
          after-bytes j ∙ rw hit refl in
        get_or-some (u.copy_from_user len).0 (j - off) (ground (arith, fill.fills len))
          (sym given ∙ e)
    | inr miss ↦ elim (Bool-cases (leb a.used j && ltb j off)) [
      | inl gap ↦
          let zero_there : get_or (overwrite rv.memory off bytes) j none ≡ some 0 =
            after-bytes j ∙ rw (miss, gap) refl in
          cc (sym zero_there ∙ e)
      | inr old ↦
          let kept : get_or (overwrite rv.memory off bytes) j none ≡ get_or b j none =
            after-bytes j ∙ rw (miss, old) refl in
          is.stored j (ground (arith, rv.used)) (sym kept ∙ e)
    ]
  ]

  after-IsFile : IsFile after
  after-IsFile = record {
    memory = overwrite rv.memory off bytes;
    array = record {
      buf = refl;
      length_size = length-overwrite rv.memory off bytes ∙ rv.length_size;
      used = rv.used_fits;
      stored = λ j h. after-stored j h;
    };
  }

  after-Wrote : Wrote u len off a after
  unfolding contents_of
  after-Wrote = record {
    used = rv.used;
    bytes = λ j.
        let before : contents a j ≡ (if ltb j a.used then get_or b j none else none) =
          rw is.buf refl in
        ground (arith, after-bytes j, before, rv.used);
    file = after-IsFile;
  }

  store-Writes : Writes u len off a (store u len off a' a'.buf)
  unfolding store
  store-Writes =
      let room : ltb (length rv.memory) (off + len) ≡ false =
        ground (arith, rv.fits, rv.length_size) in
      rw (rv.buf, store, room)
        (elim (Bool-cases (u.copy_from_user len).1) [
          | inl bad ↦ rw bad (faulted refl refl after-Wrote)
          | inr good ↦ rw good (wrote refl refl after-Wrote)
        ])

abbrev no_space : DynArr → ℕ → Moved
no_space a off = record { data' = a; off = off; ret = err nospc; out = [] }

reserved_or_not :
    (u : User)
    → FillsBuffer u
    → (len off : ℕ) (a : DynArr) (b : List Cell) → IsArray a b
    → off + len < 2 ^ 63
    → (alloc : Bool) (o : Option (List Cell × ℕ)) → grow alloc (off + len) b a.size ≡ o
    → (let r = fill_gap off (off + len) a o in
        Writes u len off a (if r.1 then store u len off r.0 r.0.buf else no_space r.0 off))
unfolding fill_gap
reserved_or_not u fill len off a b is small alloc none e = no_room refl refl refl
reserved_or_not u fill len off a b is small alloc (some (m, size)) e =
    store-Writes u fill len off a b is _
      (finish-Reserved alloc off len b a (some (m, size)) is small e refl)

write_buf-Writes :
    (alloc : Bool) (u : User) (len off : ℕ) (a : DynArr) (b : List Cell)
    → FillsBuffer u
    → IsArray a b
    → off + len < 2 ^ 63
    → Writes u len off a (write_buf alloc u len off a (some b))
unfolding write_buf dyn_arr_reserve
write_buf-Writes alloc u len off a b fill is small =
    let wrap : (off + len) % 2 ^ 64 ≡ off + len = omega arith in
    rw wrap (reserved_or_not u fill len off a b is small alloc _ refl)

-- The outcome of any write to a file with its memory, with an end below 2 ^ 63. A write that
-- returns has stored all of the user's bytes, with zeros in a gap before them, and nothing else
-- has changed; so has one that faults, with the bytes that the failing copy left, but its position
-- stays. A write without memory returns `nospc` and has lost the file's memory.
pub write-Writes :
    (alloc : Bool) (u : User) (len off : ℕ) (a : DynArr)
    → FillsBuffer u
    → IsFile a
    → off + len < 2 ^ 63
    → Writes u len off a (write alloc u len off a)
unfolding write
write-Writes alloc u len off a fill is small =
    subst (λ (o : Option (List Cell)). Writes u len off a (write_buf alloc u len off a o))
      (sym is.array.buf) (write_buf-Writes alloc u len off a is.memory fill is.array small)

-- What a read returns, if it does not fault: as many bytes as are asked for and are there, the
-- file's bytes from `off` on, and none that has not been stored.
pub data Reads (len off : ℕ) (a : DynArr) : Moved → Type 0 where
  returned :
      {r : Moved}
      → r.ret ≡ ok (min len (a.used - off))
      → r.off ≡ off + min len (a.used - off)
      → r.data' ≡ a
      → length r.out ≡ min len (a.used - off)
      → ((k : ℕ)
          → get_or r.out k none
            ≡ (if ltb k (min len (a.used - off)) then contents a (off + k) else none))
      → Reads len off a r
  faulted_read : Reads len off a (record { data' = a; off = off; ret = err fault; out = [] })

read_buf-Reads :
    (u : User) (len off : ℕ) (a : DynArr) (b : List Cell)
    → IsArray a b
    → off < a.used
    → Reads len off a (read_buf u len off a (some b))
unfolding read_buf contents_of
read_buf-Reads u len off a b is inside =
    let n = min len (a.used - off) in
    let out = take n (drop off b) in
    let room : ltb (length b) (off + n) ≡ false = ground (arith, is.length_size, is.used) in
    let short : length out ≡ n =
      omega (arith, length-take n (drop off b), length-drop off b, is.length_size, is.used) in
    rw room (elim (Bool-cases (u.copy_to_user out)) [
      | inl bad ↦ rw bad faulted_read
      | inr good ↦ rw good (
          returned refl refl refl short (λ k.
            let there : contents a (off + k)
                ≡ (if ltb (off + k) a.used then get_or b (off + k) none else none) =
              rw is.buf refl in
            elim (dec_lt k n) [
              | yes lt ↦
                  ground
                    (arith, there, get_or-take n (drop off b) k none lt, get_or-drop off b k none)
              | no beyond ↦ ground (arith, short, get_or_beyond out k none)
            ]))
    ])

-- The outcome of any read of a file with its memory: it changes nothing, and returns the bytes of
-- the file unless the copy to the user fails.
pub read-Reads :
    (u : User) (len off : ℕ) (a : DynArr) → IsFile a → Reads len off a (read u len off a)
unfolding read
read-Reads u len off a is = elim (Bool-cases (leb a.used off)) [
  | inl past ↦
      let nothing : min len (a.used - off) ≡ 0 = ground arith in
      rw past (
        returned (ap ok (sym nothing)) (omega arith) refl (omega arith)
          (λ k. ground (arith, nothing)))
  | inr inside ↦ rw inside (
      subst (λ (o : Option (List Cell)). Reads len off a (read_buf u len off a o))
        (sym is.array.buf) (read_buf-Reads u len off a is.memory is.array (ground arith)))
]
