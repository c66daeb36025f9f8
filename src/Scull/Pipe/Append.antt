-- ===== src/Scull/Pipe/Append.antt =====
-- Stores behind the queued bytes of a circular buffer.
use linux_kernel_module_chea.Base.{
  ℕ, ◌+◌, ◌-◌, ◌≡◌, ◌<◌, ◌≤◌, refl, ap, arith, true, false, List, ◌++◌, length, take, drop,
  overwrite, length-drop, length-overwrite, get_elem?, get_elem?-append, get_elem?-take_if,
  get_elem?-drop, get_elem?-overwrite, list_ext, get_elem?_beyond, leb, ltb, ◌==◌, if◌then◌else◌,
  Bool-cases, inl, inr,
}
use native.Mathlib.Decide.{dec_lt}
use linux_kernel_module_chea.Kernel.{Cell}
use linux_kernel_module_chea.Scull.Pipe.Queue.{queue_of, queue_of-length, get_elem?-queue_of}

module _ (b ys : List Cell) (rp wp : ℕ) (h : rp < length b) (k : wp < length b)
    (fit : wp + length ys ≤ length b)
    (room : length ys ≤ (if leb rp wp then length b - 1 - (wp - rp) else rp - wp - 1)) where
  -- Writing in the free part leaves the queue as it is.
  pub queue_of-spare : queue_of (overwrite b wp ys) rp wp ≡ queue_of b rp wp
  unfolding queue_of
  queue_of-spare = list_ext _ _ λ i. ground (
    arith,
    get_elem?-append (drop rp b) (take wp b) i,
    get_elem?-append (drop rp (overwrite b wp ys)) (take wp (overwrite b wp ys)) i,
    length-drop rp b,
    length-drop rp (overwrite b wp ys),
    length-overwrite b wp ys,
    get_elem?-take_if (wp - rp) (drop rp b) i,
    get_elem?-take_if (wp - rp) (drop rp (overwrite b wp ys)) i,
    get_elem?-drop rp b i,
    get_elem?-drop rp (overwrite b wp ys) i,
    get_elem?-take_if wp b (i - (length b - rp)),
    get_elem?-take_if wp (overwrite b wp ys) (i - (length b - rp)),
    get_elem?-overwrite b wp ys (rp + i) fit,
    get_elem?-overwrite b wp ys (i - (length b - rp)) fit,
  )

  -- The elements of the two sides of an append, at a new write pointer.
  abbrev Appends : ℕ → Type 0
  Appends wp' =
      (i : ℕ)
      → get_elem? (queue_of (overwrite b wp ys) rp wp') i ≡ (
          if ltb i (length (queue_of b rp wp))
          then get_elem? (queue_of b rp wp) i
          else get_elem? ys (i - length (queue_of b rp wp)))

  Appends-ahead : rp ≤ wp → (wp' : ℕ) → wp' ≡ wp + length ys → wp' < length b → Appends wp'
  Appends-ahead ahead wp' e lt i =
      let c = overwrite b wp ys in
      let t : leb rp wp ≡ true = ground arith in
      let t' : leb rp wp' ≡ true = ground arith in
      rw
        (
          queue_of-length b rp wp (omega arith) (omega arith),
          get_elem?-queue_of b rp wp i (omega arith) (omega arith),
          get_elem?-queue_of c rp wp' i (omega (arith, length-overwrite b wp ys))
              (omega (arith, length-overwrite b wp ys)),
          t,
          t',
          get_elem?-overwrite b wp ys (rp + i) fit,
        )
        (ground (
          arith,
          get_elem?_beyond ys (i - (wp - rp)),
          ap (get_elem? ys) {x = rp + i - wp} {y = i - (wp - rp)},
        ))

  Appends-wrapped : rp ≤ wp → wp + length ys ≡ length b → Appends 0
  Appends-wrapped ahead e i =
      let c = overwrite b wp ys in
      let t : leb rp wp ≡ true = ground arith in
      let t' : leb rp 0 ≡ false = ground arith in
      rw
        (
          queue_of-length b rp wp (omega arith) (omega arith),
          get_elem?-queue_of b rp wp i (omega arith) (omega arith),
          get_elem?-queue_of c rp 0 i (omega (arith, length-overwrite b wp ys)) (omega arith),
          t,
          t',
          length-overwrite b wp ys,
          get_elem?-overwrite b wp ys (rp + i) fit,
        )
        (ground (
          arith,
          get_elem?_beyond ys (i - (wp - rp)),
          ap (get_elem? ys) {x = rp + i - wp} {y = i - (wp - rp)},
        ))

  Appends-behind : wp < rp → (wp' : ℕ) → wp' ≡ wp + length ys → Appends wp'
  Appends-behind behind wp' e i =
      let c = overwrite b wp ys in
      let t : leb rp wp ≡ false = ground arith in
      let t' : leb rp wp' ≡ false = ground arith in
      rw
        (
          queue_of-length b rp wp (omega arith) (omega arith),
          get_elem?-queue_of b rp wp i (omega arith) (omega arith),
          get_elem?-queue_of c rp wp' i (omega (arith, length-overwrite b wp ys))
              (omega (arith, length-overwrite b wp ys)),
          t,
          t',
          length-overwrite b wp ys,
          get_elem?-overwrite b wp ys (rp + i) fit,
          get_elem?-overwrite b wp ys (i - (length b - rp)) fit,
        )
        (ground (
          arith,
          get_elem?_beyond ys (i - (length b - rp + wp)),
          ap (get_elem? ys) {x = i - (length b - rp) - wp} {y = i - (length b - rp + wp)},
        ))

  -- Writing and moving the write pointer on appends, whether or not the pointer wraps.
  pub queue_of-write :
      queue_of (overwrite b wp ys) rp (if wp + length ys == length b then 0 else wp + length ys)
      ≡ queue_of b rp wp ++ ys
  queue_of-write = list_ext _ _ λ i. elim (Bool-cases (wp + length ys == length b)) [
    | inl e ↦
        rw (e, get_elem?-append (queue_of b rp wp) ys i)
          (Appends-wrapped (ground arith) (ground arith) i)
    | inr e ↦
        rw (e, get_elem?-append (queue_of b rp wp) ys i)
          (elim (dec_lt wp rp) [
            | yes behind ↦ Appends-behind behind _ refl i
            | no ahead ↦ Appends-ahead (omega arith) _ refl (ground arith) i
          ])
  ]
