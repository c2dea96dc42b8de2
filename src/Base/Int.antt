-- ===== src/Base/Int.antt =====
-- Integers over the native numbers, and the LIMIT of an SQL query.
use Prim.Native.Nat.{ℕ, zero, suc}
use mathlib.Core.List.{List}
use ocfl_index.Base.Lists.{take}

-- `negsuc n` is -(n + 1).
pub data ℤ : Type 0 where
  pos : ℕ → ℤ
  negsuc : ℕ → ℤ

-- n + 1
abbrev pub suc_int : ℤ → ℤ
suc_int (pos n) = pos (suc n)
suc_int (negsuc zero) = pos 0
suc_int (negsuc (suc n)) = negsuc n

-- LIMIT n: a negative number is no limit.
unfoldable pub limited {ℓ} : {A : Type ℓ} → ℤ → List A → List A
limited (pos n) xs = take n xs
limited (negsuc n) xs = xs
