-- ===== src/FileIo/Contents.antt =====
-- What the helpers say of the contents of a file.
use linux_kernel_module_chea.Base.{
  ℕ, zero, suc, ◌≡◌, ◌≢◌, refl, ◌∙◌, ap, Bool, true, false, Option, none, some, List, [], ◌∷◌,
  length, take_whole, take, drop, ◌==◌, arith, Bool-cases, inl, inr,
}
use linux_kernel_module_chea.FileIo.{
  Stdio, FileRead, gives_up, restore, size_from, lkmc_fget_file_size, read_and_close, read_sized,
  lkmc_file_read,
}

-- The stream is a file of fixed contents with a position. A call that succeeds does what the C
-- library says of it; one that fails may do anything to the position. A read may be short.
pub record OnFile (io : Stdio) (contents : List ℕ) : Type 0 where
  pub position : io.File → ℕ
  pub tells :
      (f : io.File) (p : ℕ)
      → (io.ftell f).0 ≡ some p
      → (p ≡ position f) × (position (io.ftell f).1 ≡ position f)
  pub to_end :
      (f : io.File) → (io.fseek_end f).0 ≡ true → position (io.fseek_end f).1 ≡ length contents
  pub to_place :
      (n : ℕ) (f : io.File) → (io.fseek_set n f).0 ≡ true → position (io.fseek_set n f).1 ≡ n
  pub reads :
      (n : ℕ) (f : io.File)
      → (k : ℕ) × ((io.fread n f).0 ≡ take k (take n (drop (position f) contents)))

restore_lem :
    (io : Stdio) (contents : List ℕ) (on : OnFile io contents) (oldpos : ℕ) (told : Option ℕ)
    (f : io.File) (size : ℕ)
    → (restore io oldpos (told, f)).0 ≡ some size
    → (told ≡ some size) × (on.position (restore io oldpos (told, f)).1 ≡ oldpos)
unfolding restore
restore_lem io contents on oldpos none f size e = let e' : none ≡ some size = e in cc
restore_lem io contents on oldpos (some n) f size e = elim (Bool-cases (io.fseek_set oldpos f).0) [
  | inl set ↦ (rw set at e, on.to_place oldpos f set)
  | inr not_set ↦ let e' : none ≡ some size = rw not_set at e in cc
]

size_from_lem :
    (io : Stdio) (contents : List ℕ) (on : OnFile io contents) (told : Option ℕ) (f : io.File)
    (size : ℕ)
    → (size_from io (told, f)).0 ≡ some size
    → (size ≡ length contents)
      × ((p : ℕ) × ((told ≡ some p) × (on.position (size_from io (told, f)).1 ≡ p)))
unfolding size_from
size_from_lem io contents on none f size e = let e' : none ≡ some size = e in cc
size_from_lem io contents on (some p) f size e = elim (Bool-cases (io.fseek_end f).0) [
  | inl at_end ↦
      let f' = (io.fseek_end f).1 in
      let r = restore_lem io contents on p (io.ftell f').0 (io.ftell f').1 size (rw at_end at e) in
      ((on.tells f' size r.0).0 ∙ on.to_end f at_end, (p, (refl, rw at_end r.1)))
  | inr stays ↦ let e' : none ≡ some size = rw stays at e in cc
]

-- If a size is given, it is that of the file, and the position is the old one again.
pub lkmc_fget_file_size_lem :
    (io : Stdio) (contents : List ℕ) (on : OnFile io contents) (f : io.File) (size : ℕ)
    → (lkmc_fget_file_size io f).0 ≡ some size
    → (size ≡ length contents) × (on.position (lkmc_fget_file_size io f).1 ≡ on.position f)
unfolding lkmc_fget_file_size
lkmc_fget_file_size_lem io contents on f size e =
    let r = size_from_lem io contents on (io.ftell f).0 (io.ftell f).1 size e in
    let (p, (told, back)) = r.1 in (r.0, back ∙ (on.tells f p told).0)

-- Every call succeeds, and a read comes to its end.
pub record Succeeds (io : Stdio) (contents : List ℕ) (on : OnFile io contents) (malloc : Bool)
    : Type 0 where
  pub ftell : (f : io.File) → (p : ℕ) × ((io.ftell f).0 ≡ some p)
  pub fseek_end : (f : io.File) → (io.fseek_end f).0 ≡ true
  pub fseek_set : (n : ℕ) (f : io.File) → (io.fseek_set n f).0 ≡ true
  pub fread :
      (n : ℕ) (f : io.File)
      → length (io.fread n f).0 ≡ length (take n (drop (on.position f) contents))
  pub fclose : (f : io.File) → io.fclose f ≡ true
  pub allocates : malloc ≡ true

lkmc_fget_file_size-Succeeds :
    (io : Stdio) (contents : List ℕ) (on : OnFile io contents) (malloc : Bool) (f : io.File)
    → Succeeds io contents on malloc
    → (lkmc_fget_file_size io f).0 ≢ none
unfolding lkmc_fget_file_size size_from restore
lkmc_fget_file_size-Succeeds io contents on malloc f s lost =
    let (p, e) = s.ftell f in
    let f' = (io.fseek_end (io.ftell f).1).1 in
    let (q, e') = s.ftell f' in
    let last = rw (e, s.fseek_end (io.ftell f).1, e', s.fseek_set p (io.ftell f').1) at lost in cc

-- How `lkmc_file_read` ends on a stream whose position is the start of the file: with the contents in
-- memory and the stream closed, or with a null pointer because a call has failed.
pub data Outcome (io : Stdio) (contents : List ℕ) (on : OnFile io contents) (malloc : Bool)
    : FileRead → Type 0 where
  whole :
      Outcome io contents on malloc
        (record { buffer = some contents; left_open = false; leaked = false })
  gave_up :
      {left_open leaked : Bool}
      → ¬ Succeeds io contents on malloc
      → Outcome io contents on malloc (gives_up left_open leaked)

-- A part that is as long as the whole is the whole.
take_all : (k : ℕ) (xs : List ℕ) → length (take k xs) ≡ length xs → take k xs ≡ xs
take_all zero [] h = refl
take_all zero (x ∷ xs) h = absurd (omega (arith, h))
take_all (suc k) [] h = refl
take_all (suc k) (x ∷ xs) h = ap (λ (ys : List ℕ). x ∷ ys) (take_all k xs (omega (arith, h)))

read_and_close-Outcome :
    (io : Stdio) (contents : List ℕ) (on : OnFile io contents) (malloc : Bool) (f : io.File)
    (fsize : ℕ)
    → on.position f ≡ 0
    → fsize ≡ length contents
    → Outcome io contents on malloc (read_and_close io fsize f)
unfolding read_and_close
read_and_close-Outcome io contents on malloc f fsize start e =
    let (k, is) = on.reads fsize f in
    let here : take fsize (drop (on.position f) contents) ≡ contents =
      rw start (take_whole fsize contents (omega (arith, e))) in
    let part : (io.fread fsize f).0 ≡ take k contents = rw here at is in
    elim (Bool-cases (length (io.fread fsize f).0 == fsize)) [
      | inl all ↦
          let same : length (io.fread fsize f).0 ≡ length contents = ground (arith, all, e) in
          let bytes : (io.fread fsize f).0 ≡ contents =
            part ∙ take_all k contents (rw part at same) in
          elim (Bool-cases (io.fclose (io.fread fsize f).1)) [
            | inl closed ↦ rw (all, closed, bytes) whole
            | inr kept ↦ rw (all, kept) (gave_up (λ s. let c = s.fclose (io.fread fsize f).1 in cc))
          ]
      | inr short ↦
          rw short
            (gave_up (λ s. let l = rw here at (s.fread fsize f) in ground (arith, short, l, e)))
    ]

read_sized-Outcome :
    (io : Stdio) (contents : List ℕ) (on : OnFile io contents) (malloc : Bool) (f : io.File)
    (told : Option ℕ)
    → ((size : ℕ) → told ≡ some size → (size ≡ length contents) × (on.position f ≡ 0))
    → (Succeeds io contents on malloc → told ≢ none)
    → Outcome io contents on malloc (read_sized io malloc (told, f))
unfolding read_sized
read_sized-Outcome io contents on malloc f none right given = gave_up (λ s. given s refl)
read_sized-Outcome io contents on true f (some n) right given =
    read_and_close-Outcome io contents on true f n (right n refl).1 (right n refl).0
read_sized-Outcome io contents on false f (some n) right given =
    gave_up (λ s. let a : false ≡ true = s.allocates in cc)

-- On a stream that stands at the start of its file, `lkmc_file_read` returns the whole contents and
-- has closed the stream, or some call of the C library has failed and it returns a null pointer. If
-- every call succeeds it is the former.
pub lkmc_file_read-Outcome :
    (io : Stdio) (contents : List ℕ) (on : OnFile io contents) (malloc : Bool) (f : io.File)
    → on.position f ≡ 0
    → Outcome io contents on malloc (lkmc_file_read io (some f) malloc)
unfolding lkmc_file_read
lkmc_file_read-Outcome io contents on malloc f start =
    read_sized-Outcome io contents on malloc (lkmc_fget_file_size io f).1
      (lkmc_fget_file_size io f).0
      (λ size e. let r = lkmc_fget_file_size_lem io contents on f size e in (r.0, r.1 ∙ start))
      (lkmc_fget_file_size-Succeeds io contents on malloc f)
