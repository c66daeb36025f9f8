-- ===== src/Memfile/Bytes.antt =====
-- The array as a file: which byte stands at each position.
use linux_kernel_module_chea.Base.{
  ℕ, zero, suc, ◌+◌, ◌-◌, ◌*◌, ◌%◌, ◌^◌, ◌≤◌, ◌<◌, ◌≡◌, ◌≢◌, ◌⊎◌, refl, max, Bool, true, ◌&&◌,
  Option, none, some, List, [], ◌∷◌, ◌++◌, ltb, leb, if◌then◌else◌, take, length, replicate,
  overwrite, arith, get_or, length-take, length-replicate, length-append, length-overwrite,
  get_or-overwrite, get_or-replicate, get_or-take, Bool-cases, get_or_beyond, some_inj, inl, inr,
  ◌∙◌, sym,
}
use mathlib.Core.Path.{subst}
use native.Mathlib.Decide.{dec_lt}
use linux_kernel_module_chea.Kernel.{Cell}
use linux_kernel_module_chea.Memfile.{DynArr, grow, fill_gap, resized}

-- The memory is there and as long as `size`, the end of the data lies in it, and all data has been
-- stored.
pub record IsArray (a : DynArr) (b : List Cell) : Type 0 where
  pub buf : a.buf ≡ some b
  pub length_size : length b ≡ a.size
  pub used : a.used ≤ a.size
  pub stored : (j : ℕ) → j < a.used → get_or b j none ≢ none

get_or-padded :
    (xs : List Cell) (m j : ℕ) → get_or (xs ++ replicate m none) j none ≡ get_or xs j none
get_or-padded [] m j = get_or-replicate m j none
get_or-padded (x ∷ xs) m zero = refl
get_or-padded (x ∷ xs) m (suc j) = get_or-padded xs m j

get_or-resized :
    (n : ℕ) (b : List Cell) (j : ℕ) → length b ≤ n → get_or (resized n b) j none ≡ get_or b j none
get_or-resized n b j h = get_or-padded (take n b) (n - length b) j ∙ (elim (dec_lt j n) [
  | yes lt ↦ get_or-take n b j none lt
  | no beyond ↦
      get_or_beyond (take n b) j none (omega (arith, length-take n b))
      ∙ sym (get_or_beyond b j none (omega arith))
])

length-resized : (n : ℕ) (b : List Cell) → length (resized n b) ≡ n
length-resized n b = omega (
  arith,
  length-append (take n b) (replicate (n - length b) none),
  length-take n b,
  length-replicate {A = Cell} (n - length b) none,
)

-- What a reservation leaves in memory: the old data, then zeros up to `off`.
abbrev pub reserved_at : (off used : ℕ) → List Cell → ℕ → Cell
reserved_at off used b j = if leb used j && ltb j off then some 0 else get_or b j none

pub record Reserved (off len : ℕ) (b : List Cell) (a a' : DynArr) : Type 0 where
  pub memory : List Cell
  pub buf : a'.buf ≡ some memory
  pub length_size : length memory ≡ a'.size
  pub fits : off + len ≤ a'.size
  pub used : a'.used ≡ max a.used (off + len)
  pub used_fits : a'.used ≤ a'.size
  pub bytes : (j : ℕ) → get_or memory j none ≡ reserved_at off a.used b j

get_or-zeros : (n k : ℕ) → k < n → get_or {A = Cell} (replicate n (some 0)) k none ≡ some 0
get_or-zeros zero k h = absurd (omega arith)
get_or-zeros (suc n) zero h = refl
get_or-zeros (suc n) (suc k) h = get_or-zeros n k (omega arith)

-- The memory that a reservation goes on with.
record Grown (new_used : ℕ) (b : List Cell) (m : List Cell) (size : ℕ) : Type 0 where
  length_size : length m ≡ size
  fits : new_used ≤ size
  grows : length b ≤ size
  bytes : (j : ℕ) → get_or m j none ≡ get_or b j none

grow_cases :
    (alloc : Bool) (new_used : ℕ) (b : List Cell) (size : ℕ) (o : Option (List Cell × ℕ))
    → grow alloc new_used b size ≡ o
    → (o ≡ none)
      ⊎ (((new_used ≤ size) × (o ≡ some (b, size)))
          ⊎ ((size < new_used)
              × (o ≡ some (resized (new_used * 2 % 2 ^ 64) b, new_used * 2 % 2 ^ 64))))
unfolding grow
grow_cases alloc new_used b size o e = elim (Bool-cases (ltb size new_used)) [
  | inr fits ↦ inr (inl (ground arith, sym e ∙ rw fits refl))
  | inl short ↦ elim (Bool-cases alloc) [
    | inr lacking ↦ inl (sym e ∙ rw (short, lacking) refl)
    | inl there ↦ inr (inr (ground arith, sym e ∙ rw (short, there) refl))
  ]
]

grow-Grown :
    (alloc : Bool) (new_used : ℕ) (b : List Cell) (size : ℕ) (m : List Cell) (n : ℕ)
    → length b ≡ size
    → new_used < 2 ^ 63
    → grow alloc new_used b size ≡ some (m, n)
    → Grown new_used b m n
grow-Grown alloc new_used b size m n len small e = elim (grow_cases alloc new_used b size _ e) [
  | inl nothing ↦ cc
  | inr (inl (fits, is)) ↦
      subst (λ (x : List Cell × ℕ). Grown new_used b x.0 x.1) (sym (some_inj is))
        (record { length_size = len; fits = fits; grows = omega arith; bytes = λ j. refl })
  | inr (inr (short, is)) ↦
      let double : new_used * 2 % 2 ^ 64 ≡ new_used * 2 = omega arith in
      let new_size = new_used * 2 % 2 ^ 64 in
      subst (λ (x : List Cell × ℕ). Grown new_used b x.0 x.1) (sym (some_inj is))
        (record {
          length_size = length-resized new_size b;
          fits = omega arith;
          grows = omega arith;
          bytes = λ j. get_or-resized new_size b j (omega arith);
        })
]

fill_gap-Reserved :
    (off len : ℕ) (b : List Cell) (a : DynArr) (m : List Cell) (size : ℕ)
    → a.used ≤ a.size
    → length b ≡ a.size
    → Grown (off + len) b m size
    → Reserved off len b a (fill_gap off (off + len) a (some (m, size))).0
unfolding fill_gap
fill_gap-Reserved off len b a m size used len_b g = elim (Bool-cases (ltb a.used off)) [
  | inl gap ↦
      let zeros : List Cell = replicate (off - a.used) (some 0) in
      let n : length zeros ≡ off - a.used = length-replicate {A = Cell} (off - a.used) (some 0) in
      rw gap (record {
        memory = overwrite m a.used zeros;
        buf = refl;
        length_size = length-overwrite m a.used zeros ∙ g.length_size;
        fits = g.fits;
        used = ground arith;
        used_fits = ground (arith, g.fits, g.grows);
        bytes = λ j.
            get_or-overwrite m a.used zeros j none (ground (arith, n, g.length_size, g.fits))
            ∙ ground (arith, n, g.bytes j, get_or-zeros (off - a.used) (j - a.used));
      })
  | inr none_there ↦ rw none_there (record {
    memory = m;
    buf = refl;
    length_size = g.length_size;
    fits = g.fits;
    used = ground arith;
    used_fits = ground (arith, g.fits, g.grows);
    bytes = λ j. g.bytes j ∙ ground arith;
  })
]

pub finish-Reserved :
    (alloc : Bool) (off len : ℕ) (b : List Cell) (a : DynArr) (o : Option (List Cell × ℕ))
    → IsArray a b
    → off + len < 2 ^ 63
    → grow alloc (off + len) b a.size ≡ o
    → (fill_gap off (off + len) a o).1 ≡ true
    → Reserved off len b a (fill_gap off (off + len) a o).0
unfolding fill_gap
finish-Reserved alloc off len b a none is small e h = cc
finish-Reserved alloc off len b a (some (m, size)) is small e h =
    fill_gap-Reserved off len b a m size is.used is.length_size
      (grow-Grown alloc (off + len) b a.size m size is.length_size small e)
