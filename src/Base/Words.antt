-- ===== src/Base/Words.antt =====
-- Unsigned words keep their wrap-around; a cast to a narrower word drops the high bits.
use Prim.Native.Nat.{ℕ, ◌-◌, ◌%◌, ◌^◌}
use nova.Base.Tests.{ltb, if◌then◌else◌}

abbrev pub u8 : ℕ → ℕ
u8 n = n % 2 ^ 8

abbrev pub u16 : ℕ → ℕ
u16 n = n % 2 ^ 16

abbrev pub u32 : ℕ → ℕ
u32 n = n % 2 ^ 32

abbrev pub u64 : ℕ → ℕ
u64 n = n % 2 ^ 64

-- `negsuc n` is -(n + 1).
pub data ℤ : Type 0 where
  pos : ℕ → ℤ
  negsuc : ℕ → ℤ

-- the cast of a `uint32_t` to `int32_t`
abbrev pub to_i32 : ℕ → ℤ
to_i32 n = if ltb n (2 ^ 31) then pos n else negsuc (2 ^ 32 - 1 - n)
