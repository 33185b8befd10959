-- ===== src/Prelude/Int.antt =====
-- Signed machine integers that the program only compares for equality (`int64` amounts).
use Prim.Native.Nat.{ℕ}
use native.Mathlib.Decide.{ℕ_discrete}
use mathlib.Core.Bool.{Bool}
use edn_core.Prelude.Tests.{holds}

-- `negsuc n` is -(n + 1).
pub data ℤ : Type 0 where
  pos : ℕ → ℤ
  negsuc : ℕ → ℤ

unfoldable pub ℤ-discrete : Discrete ℤ
unfolding ℕ_discrete
ℤ-discrete = hlevel ℕ_discrete

-- `==` on `int64`
abbrev pub int_eq : ℤ → ℤ → Bool
int_eq a b = holds (ℤ-discrete a b)
