-- ===== src/Base/Format.antt =====
-- What the code uses of the standard library's text functions: `trim`, decimal numbers, `join`.
use Prim.Native.Nat.{ℕ, zero, suc, ◌+◌, ◌-◌, ◌*◌, ◌/◌, ◌%◌, ◌^◌}
use mathlib.Core.Bool.{Bool, false, ◌&&◌, ◌||◌}
use mathlib.Core.List.{List, [], ◌∷◌, ◌++◌, reverse}
use mathlib.Core.Option.{Option, none, some}
use vpn_password_manager.Base.Tests.{ltb, leb, ◌==◌, if◌then◌else◌}
use vpn_password_manager.Base.Strings.{Text}

-- `char::is_whitespace`: Unicode's White_Space.
unfoldable pub is_whitespace : ℕ → Bool
is_whitespace c =
    (leb 9 c && leb c 13)
    || c == 0x20
    || c == 0x85
    || c == 0xA0
    || c == 0x1680
    || (leb 0x2000 c && leb c 0x200A)
    || c == 0x2028
    || c == 0x2029
    || c == 0x202F
    || c == 0x205F
    || c == 0x3000

unfoldable pub trim_start : Text → Text
trim_start [] = []
trim_start (c ∷ s) = if is_whitespace c then trim_start s else c ∷ s

unfoldable pub trim : Text → Text
unfolding trim_start is_whitespace
trim s = reverse (trim_start (reverse (trim_start s)))

-- The decimal digits of a number below ten to the power of the fuel.
unfoldable pub decimal_fuel : ℕ → ℕ → Text → Text
decimal_fuel zero n out = out
decimal_fuel (suc f) n out =
    let rest = decimal_fuel f (n / 10) ((b'0' + n % 10) ∷ out) in
    if ltb n 10 then (b'0' + n) ∷ out else rest

-- A number of at most 64 bits, as `{}` prints it.
unfoldable pub decimal : ℕ → Text
unfolding decimal_fuel
decimal n = decimal_fuel 20 n []

unfoldable pub is_digit : ℕ → Bool
is_digit c = leb b'0' c && leb c b'9'

-- The digits of `u32::from_str`, which fails on another character and on overflow.
unfoldable pub scan_u32 : ℕ → Text → Option ℕ
unfolding is_digit
scan_u32 n [] = some n
scan_u32 n (c ∷ s) =
    let m = n * 10 + (c - b'0') in
    let rest = scan_u32 m s in if is_digit c && ltb m (2 ^ 32) then rest else none

unfoldable pub parse_digits : Text → Option ℕ
unfolding scan_u32
parse_digits [] = none
parse_digits (c ∷ s) = scan_u32 0 (c ∷ s)

-- A leading plus sign is allowed.
unfoldable pub parse_u32 : Text → Option ℕ
unfolding parse_digits
parse_u32 [] = none
parse_u32 (c ∷ s) = if c == b'+' then parse_digits s else parse_digits (c ∷ s)

unfoldable pub join : Text → List Text → Text
join sep [] = []
join sep (p ∷ []) = p
join sep (p ∷ q ∷ ps) = p ++ (sep ++ join sep (q ∷ ps))

behind : ℕ → Option (Text × Text) → Option (Text × Text)
behind c none = none
behind c (some (a, b)) = some (c ∷ a, b)

-- `split_once`: what stands before the first separator, and what stands behind it.
unfoldable pub split_once : ℕ → Text → Option (Text × Text)
unfolding behind
split_once sep [] = none
split_once sep (c ∷ s) =
    let rest = behind c (split_once sep s) in if c == sep then some ([], s) else rest

unfoldable pub contains : ℕ → Text → Bool
contains c [] = false
contains c (x ∷ s) = x == c || contains c s
