-- ===== src/Prelude/Integers.antt =====
-- Whole numbers of JavaScript, below zero as well, and the bounds that `Math` puts on them.
use Prim.Native.Nat.{ℕ, zero, suc}
use pockode.Prelude.Tests.{ltb, if◌then◌else◌}

-- `negsuc n` is the number -(n + 1).
pub data ℤ : Type 0 where
  pos : ℕ → ℤ
  negsuc : ℕ → ℤ

-- `n - 1`
abbrev pub less_one : ℕ → ℤ
less_one zero = negsuc 0
less_one (suc n) = pos n

-- `Math.min(a, b)`
abbrev pub min : ℤ → ℤ → ℤ
min (pos a) (pos b) = pos (if ltb a b then a else b)
min (pos a) (negsuc b) = negsuc b
min (negsuc a) (pos b) = negsuc a
min (negsuc a) (negsuc b) = negsuc (if ltb a b then b else a)

-- `Math.max(0, a)`
abbrev pub max_zero : ℤ → ℕ
max_zero (pos a) = a
max_zero (negsuc a) = 0
