-- ===== src/Baremetal/Uart.antt =====
-- Reading from the UART and writing to it.
use linux_kernel_module_chea.Base.{
  ℕ, zero, suc, ◌≤◌, ◌<◌, ◌≡◌, refl, sym, ap, none, some, List, [], ◌∷◌, ◌++◌, length, arith,
  some_inj,
}
use linux_kernel_module_chea.Baremetal.{Looks, read_more, read_first, read}

-- The characters that come in.
unfoldable pub characters : Looks → List ℕ
characters [] = []
characters (none ∷ looks) = characters looks
characters (some c ∷ looks) = c ∷ characters looks

-- What has been read and what is still to come make up what was to come, and no more than `n` is
-- read.
record Splits (n : ℕ) (looks : Looks) (x : List ℕ × Looks) : Type 0 where
  kept : x.0 ++ characters x.1 ≡ characters looks
  at_most : length x.0 ≤ n

read_more-Splits : (n : ℕ) (looks : Looks) → Splits n looks (read_more n looks)
unfolding read_more characters
read_more-Splits zero looks = record { kept = refl; at_most = omega arith }
read_more-Splits (suc n) [] = record { kept = refl; at_most = omega arith }
read_more-Splits (suc n) (none ∷ looks) = record { kept = refl; at_most = omega arith }
read_more-Splits (suc n) (some c ∷ looks) =
    let r = read_more-Splits n looks in
    record { kept = ap (λ (cs : List ℕ). c ∷ cs) r.kept; at_most = omega (arith, r.at_most) }

-- A read that returns for a positive length takes at least one character and at most as many as it
-- was asked for, in the order in which they come in, and loses none: what is still to come follows
-- what has been read.
pub read_first_lem :
    (n : ℕ) (looks : Looks) (cs : List ℕ) (rest : Looks)
    → read (suc n) looks ≡ some (cs, rest)
    → (cs ++ characters rest ≡ characters looks) × ((0 < length cs) × (length cs ≤ suc n))
unfolding read read_first characters
read_first_lem n [] cs rest e = cc
read_first_lem n (none ∷ looks) cs rest e = read_first_lem n looks cs rest e
read_first_lem n (some c ∷ looks) cs rest e =
    let is = some_inj e in
    let got = ap (λ (x : List ℕ × Looks). x.0) is in
    let left = ap (λ (x : List ℕ × Looks). x.1) is in
    let r = read_more-Splits n looks in
    rw (sym got, sym left)
      (ap (λ (xs : List ℕ). c ∷ xs) r.kept, (omega arith, omega (arith, r.at_most)))
