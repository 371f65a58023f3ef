-- ===== src/Base/Bytes.antt =====
-- Fixed-width integers as little-endian bytes: `to_le_bytes` and `from_le_bytes`.
use Prim.Native.Nat.{ℕ, zero, suc, ◌+◌, ◌-◌, ◌*◌, ◌/◌, ◌%◌, ◌^◌, ◌<◌}
use mathlib.Core.Path.{◌≡◌, refl, ap}
use mathlib.Core.List.{List, [], ◌∷◌}
use native.Mathlib.Omega.{arith}
use native.Mathlib.Nat.{pow-suc}
use vpn_password_manager.Base.Tests.{ltb, if◌then◌else◌}
use vpn_password_manager.Base.Lists.{length}
use vpn_password_manager.Base.Int.{ℤ, pos, negsuc}

abbrev pub Bytes : Type 0
Bytes = List ℕ

-- The `w` low bytes of `n`, the lowest first.
unfoldable pub to_le : ℕ → ℕ → Bytes
to_le zero n = []
to_le (suc w) n = (n % 256) ∷ to_le w (n / 256)

unfoldable pub from_le : Bytes → ℕ
from_le [] = 0
from_le (b ∷ bs) = b + 256 * from_le bs

pub length-to_le : (w n : ℕ) → length (to_le w n) ≡ w
unfolding to_le
length-to_le zero n = refl
length-to_le (suc w) n = ap suc (length-to_le w (n / 256))

pub from_le-to_le : (w n : ℕ) → n < 256 ^ w → from_le (to_le w n) ≡ n
unfolding from_le to_le
from_le-to_le zero n h = omega arith
from_le-to_le (suc w) n h = omega (arith, from_le-to_le w (n / 256) (omega (arith, pow-suc 256 w)))

-- An `i64` and its two's complement.
abbrev pub InI64 : ℤ → Type 0
InI64 (pos n) = n < 2 ^ 63
InI64 (negsuc n) = n < 2 ^ 63

unfoldable pub i64_bits : ℤ → ℕ
i64_bits (pos n) = n
i64_bits (negsuc n) = 2 ^ 64 - 1 - n

unfoldable pub i64_of_bits : ℕ → ℤ
i64_of_bits n = if ltb n (2 ^ 63) then pos n else negsuc (2 ^ 64 - 1 - n)

unfoldable pub i64_to_le : ℤ → Bytes
i64_to_le z = to_le 8 (i64_bits z)

unfoldable pub i64_from_le : Bytes → ℤ
i64_from_le bs = i64_of_bits (from_le bs)

i64_of_bits-i64_bits : (z : ℤ) → InI64 z → i64_of_bits (i64_bits z) ≡ z
unfolding i64_of_bits i64_bits
i64_of_bits-i64_bits (pos n) h = ground arith
i64_of_bits-i64_bits (negsuc n) h = ground arith

i64_bits_bound : (z : ℤ) → InI64 z → i64_bits z < 256 ^ 8
unfolding i64_bits
i64_bits_bound (pos n) h = omega arith
i64_bits_bound (negsuc n) h = omega arith

pub i64_from_le-i64_to_le : (z : ℤ) → InI64 z → i64_from_le (i64_to_le z) ≡ z
unfolding i64_from_le i64_to_le
i64_from_le-i64_to_le z h =
    rw (from_le-to_le 8 (i64_bits z) (i64_bits_bound z h)) (i64_of_bits-i64_bits z h)
