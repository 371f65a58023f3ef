-- ===== src/Totp/Secret.antt =====
-- Secrets, their codes, and the check of a code. HMAC and the URL parser are crates, and so
-- parameters. A text stands for its UTF-8 bytes too. Where the code panics the result is `none`;
-- arithmetic wraps, as in a release build.
pub mod Check
pub mod Panics
use Prim.Native.Nat.{bit_or, bit_xor}
use vpn_password_manager.Base.{
  ℕ, zero, suc, ◌+◌, ◌-◌, ◌*◌, ◌/◌, ◌%◌, ◌^◌, ◌<◌, drop, Text, codes, text_eq, Bool, true, false,
  List, [], ◌∷◌, ◌++◌, Option, none, some, ◌≡◌, map, length, ltb, leb, ◌==◌, ◌||◌, is_empty,
  if◌then◌else◌, get_elem?, reverse, ℤ, pos, pos_part, ◌+ℤ◌, ◌-ℤ◌,
}
use vpn_password_manager.Base.Bytes.{Bytes, to_le, i64_bits, i64_of_bits}
use vpn_password_manager.Base.Format.{is_whitespace, trim, decimal, parse_u32}
use vpn_password_manager.Error.{CoreError, Result, ok, err, invalid, ◌>>=◌, ok_or}
use vpn_password_manager.Totp.Base32.{to_ascii_uppercase, base32_decode}

pub data TotpAlgo : Type 0 where
  sha1 sha256 sha512 : TotpAlgo

pub record TotpSecret : Type 0 where
  pub raw : Bytes
  pub algo : TotpAlgo
  pub digits : ℕ
  pub period : ℕ

-- What the code takes of a parsed `otpauth://` URI: the pairs of its query, decoded.
abbrev pub ParseUrl : Type 0
ParseUrl = Text → Option (List (Text × Text))

unfoldable pub parse_u8 : Text → Option ℕ
parse_u8 s = elim (parse_u32 s) [ none ↦ none | some n ↦ if ltb n 256 then some n else none ]

abbrev pub unwrap_or : Option ℕ → ℕ → ℕ
unwrap_or none n = n
unwrap_or (some m) n = m

unfoldable pub parse_algo : Text → TotpAlgo
unfolding to_ascii_uppercase
parse_algo v =
    let upper = map to_ascii_uppercase v in
    if text_eq upper (codes "SHA256")
    then sha256
    else if text_eq upper (codes "SHA512")
    then sha512
    else sha1

-- The local variables of the loop over the query.
pub record UriFields : Type 0 where
  pub secret : Option Bytes
  pub algo : TotpAlgo
  pub digits : ℕ
  pub period : ℕ

unfoldable pub read_pair : UriFields → Text → Text → Result CoreError UriFields
unfolding base32_decode parse_algo parse_u8
read_pair f k v =
    if text_eq k (codes "secret")
    then (do raw ← base32_decode v; ok (record f { secret = some raw }))
    else if text_eq k (codes "algorithm")
    then ok (record f { algo = parse_algo v })
    else if text_eq k (codes "digits")
    then ok (record f { digits = unwrap_or (parse_u8 v) 6 })
    else if text_eq k (codes "period")
    then ok (record f { period = unwrap_or (parse_u32 v) 30 })
    else ok f

unfoldable pub read_pairs : UriFields → List (Text × Text) → Result CoreError UriFields
unfolding read_pair
read_pairs f [] = ok f
read_pairs f ((k, v) ∷ pairs) = do g ← read_pair f k v; read_pairs g pairs

unfoldable pub starts_with : Text → Text → Bool
starts_with s [] = true
starts_with [] (c ∷ p) = false
starts_with (x ∷ s) (c ∷ p) = if x == c then starts_with s p else false

module _ (url : ParseUrl) where
  unfoldable pub parse_uri : Text → Result CoreError TotpSecret
  unfolding read_pairs
  parse_uri uri = do
    pairs ← ok_or (url uri) invalid
    f ← read_pairs (record { secret = none; algo = sha1; digits = 6; period = 30 }) pairs
    raw ← ok_or f.secret invalid
    ok (record { raw = raw; algo = f.algo; digits = f.digits; period = f.period })

  unfoldable pub parse : Text → Result CoreError TotpSecret
  unfolding starts_with parse_uri base32_decode
  parse input = if starts_with input (codes "otpauth://") then parse_uri input else (do
    raw ← base32_decode input
    ok (record { raw = raw; algo = sha1; digits = 6; period = 30 }))

-- The loop over the bytes that both have, from these differing bits.
unfoldable pub differing : ℕ → Bytes → Bytes → ℕ
differing diff (x ∷ a) (y ∷ b) = differing (bit_or diff (bit_xor x y)) a b
differing diff _ _ = diff

unfoldable pub ct_eq : Bytes → Bytes → Bool
unfolding differing
ct_eq a b = if length a == length b then differing 0 a b == 0 else false

unfoldable pub repeat_char : ℕ → ℕ → Text
repeat_char zero c = []
repeat_char (suc n) c = c ∷ repeat_char n c

-- The digest of a key and a message, with its length.
abbrev pub digest_size : TotpAlgo → ℕ
digest_size sha1 = 20
digest_size sha256 = 32
digest_size sha512 = 64

pub record Hmac : Type 0 where
  pub digest : TotpAlgo → Bytes → Bytes → Bytes
  pub length_digest :
      (algo : TotpAlgo) (key msg : Bytes) → length (digest algo key msg) ≡ digest_size algo

-- The four bytes at an index, the first without its highest bit; none where there are fewer.
unfoldable pub first_word : Bytes → Option ℕ
first_word (b0 ∷ b1 ∷ b2 ∷ b3 ∷ rest) = some (b0 % 128 * 2 ^ 24 + b1 * 2 ^ 16 + b2 * 2 ^ 8 + b3)
first_word digest = none

unfoldable pub truncated : Bytes → Option ℕ
unfolding first_word
truncated digest = elim (reverse digest) [
  | [] ↦ none
  | last ∷ rest ↦ first_word (drop (last % 16) digest)
]

-- `format!("{:0width$}", n)`.
unfoldable pub zero_padded : ℕ → ℕ → Text
unfolding repeat_char
zero_padded width n = let d = decimal n in repeat_char (width - length d) b'0' ++ d

-- `(unix as i64 + offset).max(0) as u64`, of a `u64` and an offset within the `i64`s. The cast and
-- the sum keep their lowest 64 bits.
unfoldable pub time_at : ℕ → ℤ → ℕ
unfolding i64_of_bits i64_bits ◌+ℤ◌ ◌-ℤ◌
time_at unix offset = pos_part (i64_of_bits (i64_bits (i64_of_bits unix +ℤ offset)))

module _ (h : Hmac) where
  -- None where the code divides by zero, or finds the digest too short.
  unfoldable pub code_at : TotpSecret → ℕ → Option Text
  unfolding truncated zero_padded
  code_at s unix =
      let modulo = 10 ^ s.digits % 2 ^ 32 in
      if s.period == 0 || modulo == 0
      then none
      else elim (truncated (h.digest s.algo s.raw (reverse (to_le 8 (unix / s.period))))) [
        | none ↦ none
        | some bin ↦ some (zero_padded s.digits (bin % modulo))
      ]

  -- The loop over the three times.
  unfoldable pub any_code : TotpSecret → Text → List ℕ → Option Bool
  unfolding code_at ct_eq
  any_code s code [] = some false
  any_code s code (t ∷ ts) =
      let rest = any_code s code ts in
      elim (code_at s t) [ none ↦ none | some c ↦ if ct_eq c code then some true else rest ]

  unfoldable pub verify_at : TotpSecret → Text → ℕ → Option Bool
  unfolding any_code time_at
  verify_at s code unix = any_code s (trim code) (
      time_at unix (pos 0 -ℤ pos s.period)
      ∷ time_at unix (pos 0)
      ∷ time_at unix (pos s.period)
      ∷ [])

unfoldable pub remaining_ms : TotpSecret → ℕ → ℕ
remaining_ms s unix_ms = let period_ms = s.period * 1000 in period_ms - unix_ms % period_ms
