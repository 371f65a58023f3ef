-- ===== src/Totp/Base32.antt =====
-- The base32 of a secret (RFC 4648, without padding). A shift of a `u32` drops the bits above the
-- 32nd, and `|` onto the zeros that a shift leaves is `+`.
pub mod RoundTrip
use vpn_password_manager.Base.{
  ℕ, zero, suc, ◌+◌, ◌-◌, ◌*◌, ◌/◌, ◌%◌, ◌^◌, ◌<◌, Text, codes, text_eq, Bool, true, false, List,
  [], ◌∷◌, ◌++◌, Option, none, some, ◌≡◌, map, length, ltb, leb, ◌==◌, ◌||◌, is_empty,
  if◌then◌else◌, get_elem?, reverse,
}
use vpn_password_manager.Base.Bytes.{Bytes, to_le}
use vpn_password_manager.Base.Format.{is_whitespace, trim, decimal, parse_u32}
use vpn_password_manager.Error.{CoreError, Result, ok, err, invalid, ◌>>=◌, ok_or}

abbrev pub alphabet : Text
alphabet = codes "ABCDEFGHIJKLMNOPQRSTUVWXYZ234567"

-- `ALPHABET[i]`, where the index is below 32.
unfoldable pub letter : ℕ → ℕ
letter i = elim (get_elem? alphabet i) [ none ↦ 0 | some c ↦ c ]

-- The inner loop of the encoder: the letters while there are five bits, and the bits left.
unfoldable pub push_letters : ℕ → ℕ → Text × ℕ
unfolding letter
push_letters buffer (suc (suc (suc (suc (suc bits))))) =
    let (out, left) = push_letters buffer bits in (letter (buffer / 2 ^ bits % 32) ∷ out, left)
push_letters buffer bits = ([], bits)

unfoldable pub encode_from : ℕ → ℕ → Bytes → Text
unfolding push_letters letter
encode_from buffer bits [] =
    if ltb 0 bits then letter (buffer * 2 ^ (5 - bits) % 2 ^ 32 % 32) ∷ [] else []
encode_from buffer bits (b ∷ bs) =
    let now = buffer * 256 % 2 ^ 32 + b in
    let (out, left) = push_letters now (bits + 8) in out ++ encode_from now left bs

unfoldable pub base32_encode : Bytes → Text
unfolding encode_from
base32_encode bs = encode_from 0 0 bs

unfoldable pub to_ascii_uppercase : ℕ → ℕ
to_ascii_uppercase c = if leb b'a' c then (if leb c b'z' then c - 32 else c) else c

abbrev one_later : Option ℕ → Option ℕ
one_later none = none
one_later (some i) = some (suc i)

unfoldable pub position : ℕ → Text → Option ℕ
position c [] = none
position c (x ∷ s) = let rest = one_later (position c s) in if x == c then some 0 else rest

unfoldable pub is_skipped : ℕ → Bool
unfolding is_whitespace
is_skipped c = c == b'=' || is_whitespace c

unfoldable pub decode_from : ℕ → ℕ → Text → Result CoreError Bytes
unfolding is_skipped to_ascii_uppercase position
decode_from buf bits [] = ok []
decode_from buf bits (c ∷ s) = elim (is_skipped c) [
  | true ↦ decode_from buf bits s
  | false ↦ elim (position (to_ascii_uppercase c) alphabet) [
    | none ↦ err invalid
    | some val ↦
        let now = buf * 32 % 2 ^ 32 + val in
        elim (leb 8 (bits + 5)) [
          | true ↦ do
            out ← decode_from now (bits + 5 - 8) s
            ok (now / 2 ^ (bits + 5 - 8) % 256 ∷ out)
          | false ↦ decode_from now (bits + 5) s
        ]
  ]
]

unfoldable pub base32_decode : Text → Result CoreError Bytes
unfolding decode_from
base32_decode s = do out ← decode_from 0 0 s; if is_empty out then err invalid else ok out
