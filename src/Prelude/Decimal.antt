-- ===== src/Prelude/Decimal.antt =====
-- Numbers as `snprintf` prints them (%u, %lu and %d of an unsigned value).
use Prim.Native.Nat.{ℕ, zero, suc, ◌+◌, ◌/◌, ◌%◌}
use mathlib.Core.List.{[], ◌∷◌}
use sticks3_buddy.Prelude.Tests.{ltb, if◌then◌else◌}
use sticks3_buddy.Prelude.Texts.{Bytes}

-- The digits of n before those of `rest`, most significant first; `fuel` bounds their number.
unfoldable pub digits : ℕ → ℕ → Bytes → Bytes
digits zero n rest = rest
digits (suc fuel) n rest =
    let more = digits fuel (n / 10) ((b'0' + n % 10) ∷ rest) in
    if ltb n 10 then (b'0' + n) ∷ rest else more

-- Ten digits hold every uint32_t.
unfoldable pub decimal : ℕ → Bytes
unfolding digits
decimal n = digits 10 n []
