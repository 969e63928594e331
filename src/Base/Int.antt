-- ===== src/Base/Int.antt =====
-- Go's signed integers: the integers over the native numbers, and the sign of a 32-bit word.
use Prim.Native.Nat.{ℕ, ◌-◌, ◌^◌}
use sinty_nm.Base.Tests.{ltb, if◌then◌else◌}

pub data ℤ : Type 0 where
  pos negsuc : ℕ → ℤ

-- `int32(v)` of a 32-bit word.
abbrev pub int32 : ℕ → ℤ
int32 v = if ltb v (2 ^ 31) then pos v else negsuc (2 ^ 32 - 1 - v)
