-- ===== src/Base/Div.antt =====
-- Quotients and remainders by a variable.
use Prim.Native.Nat.{ℕ, ◌+◌, ◌*◌, ◌/◌, ◌%◌, ◌<◌}
use mathlib.Core.Path.{◌≡◌}
use native.Mathlib.Omega.{arith}

-- The quotient and the remainder are determined by the equation that they satisfy.
pub div_unique : (k b r : ℕ) → r < b → (k * b + r) / b ≡ k
div_unique k b r h = grind arith

pub mod_unique : (k b r : ℕ) → r < b → (k * b + r) % b ≡ r
mod_unique k b r h = grind arith

-- A row and a column within bounds give an index within bounds.
pub index-lt : (r c h w : ℕ) → r < h → c < w → r * w + c < w * h
index-lt r c h w p q = grind arith

pub mod_once : (r b n : ℕ) → r < b → n ≡ b + r → n % b ≡ r
mod_once r b n h e = grind arith
