-- ===== src/Base/Int.antt =====
-- Go's signed `int` where the code can meet a negative value: `negsuc n` is -(n + 1).
use Prim.Native.Nat.{ℕ}
use mathlib.Core.Bool.{Bool, false}
use dota2_analysis.Base.Tests.{leb}

pub data ℤ : Type 0 where
  pos : ℕ → ℤ
  negsuc : ℕ → ℤ

-- `a >= n` for a length `n`.
abbrev pub ge_ℕ : ℤ → ℕ → Bool
ge_ℕ (pos a) n = leb n a
ge_ℕ (negsuc a) n = false
