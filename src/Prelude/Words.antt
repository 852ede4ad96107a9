-- ===== src/Prelude/Words.antt =====
-- Machine words as native numbers: the wrap-around of uint8_t, uint16_t and uint32_t.
use Prim.Native.Nat.{ℕ, ◌+◌, ◌-◌, ◌%◌, ◌<◌, ◌≤◌}
use mathlib.Core.Path.{◌≡◌}
use mathlib.Core.Bool.{Bool}
use native.Mathlib.Omega.{arith}
use sticks3_buddy.Prelude.Tests.{leb, ltb, if◌then◌else◌}

abbrev pub u8 : ℕ → ℕ
u8 n = n % 256

abbrev pub u16 : ℕ → ℕ
u16 n = n % 65536

abbrev pub u32 : ℕ → ℕ
u32 n = n % 4294967296

abbrev pub u32_mod : ℕ
u32_mod = 4294967296

-- uint32_t a + b and a - b, of operands in range.
abbrev pub add32 : ℕ → ℕ → ℕ
add32 a b = (a + b) % 4294967296

abbrev pub sub32 : ℕ → ℕ → ℕ
sub32 a b = (a + 4294967296 - b) % 4294967296

-- (int32_t)(now - t) < 0: the tick t is still ahead of now.
abbrev pub before32 : ℕ → ℕ → Bool
before32 now t = leb 2147483648 (sub32 now t)

pub sub32-add32 : (a d : ℕ) → a < u32_mod → d < u32_mod → sub32 (add32 a d) a ≡ d
sub32-add32 a d h k = omega arith

pub sub32_range : (a b : ℕ) → sub32 a b < u32_mod
sub32_range a b = omega arith

pub sub32-sub32 : (a d : ℕ) → a < u32_mod → d < u32_mod → sub32 a (sub32 a d) ≡ d
sub32-sub32 a d h k = omega arith

-- An int of the source.
pub data ℤ : Type 0 where
  pos negsuc : ℕ → ℤ

-- An int after `if (v < lo) v = lo; if (v > hi) v = hi;`, for a bound `lo` of at least 0.
abbrev pub clamp_int : ℕ → ℕ → ℤ → ℕ
clamp_int lo hi (pos n) = if ltb n lo then lo else if ltb hi n then hi else n
clamp_int lo hi (negsuc n) = lo

pub clamp_int_range :
    (lo hi : ℕ) (v : ℤ) → lo ≤ hi → (lo ≤ clamp_int lo hi v) × (clamp_int lo hi v ≤ hi)
clamp_int_range lo hi (pos n) h = ground arith
clamp_int_range lo hi (negsuc n) h = (omega arith, h)
