-- ===== src/Totp/Tests.antt =====
-- The theorems on one-time passwords at concrete secrets, with a digest that is always zero.
use vpn_password_manager.Base.{
  ℕ, zero, suc, ◌+◌, ◌-◌, Text, codes, Bool, true, false, List, [], ◌∷◌, Option, none, some, ◌≡◌,
  refl, ap, length, ◌↔◌, arith, any, All, text_eq,
}
use vpn_password_manager.Base.Format.{trim, parse_u32}
use vpn_password_manager.Error.{ok}
use vpn_password_manager.Totp.Base32.{base32_encode, base32_decode}
use vpn_password_manager.Totp.Base32.RoundTrip.{base32_decode-base32_encode}
use vpn_password_manager.Totp.Secret.{
  sha1, TotpSecret, ParseUrl, Hmac, digest_size, repeat_char, starts_with, parse, code_at,
  verify_at,
}
use vpn_password_manager.Totp.Secret.Check.{IsUsable, IsCodeOf, verify_at_iff}
use vpn_password_manager.Totp.Secret.Panics.{is_secret, Decodes, last_period, parse_zero_period}

length-repeat_char : (n c : ℕ) → length (repeat_char n c) ≡ n
unfolding repeat_char
length-repeat_char zero c = refl
length-repeat_char (suc n) c = ap suc (length-repeat_char n c)

abbrev zeros : Hmac
zeros = record {
  digest = λ algo key msg. repeat_char (digest_size algo) 0;
  length_digest = λ algo key msg. length-repeat_char (digest_size algo) 0;
}

abbrev secret : TotpSecret
secret = record { raw = 1 ∷ 2 ∷ []; algo = sha1; digits = 6; period = 30 }

secret-IsUsable : IsUsable secret
secret-IsUsable = record { positive = omega arith; few_digits = omega arith }

three_bytes : base32_encode (255 ∷ 0 ∷ 7 ∷ []) ≡ codes "74AAO"
unfolding base32_encode
three_bytes = refl

base32_decode-base32_encode_example :
    base32_decode (base32_encode (255 ∷ 0 ∷ 7 ∷ [])) ≡ ok (255 ∷ 0 ∷ 7 ∷ [])
base32_decode-base32_encode_example =
    base32_decode-base32_encode (255 ∷ 0 ∷ 7 ∷ []) refl
      (omega arith, (omega arith, (omega arith, tt)))

zero_code : code_at zeros secret 59 ≡ some (codes "000000")
unfolding code_at vpn_password_manager.Base.Format.decimal
zero_code = refl

verify_at_iff_example :
    (b : Bool) × (verify_at zeros secret (codes " 000000") 59 ≡ some b)
    × ((b ≡ true)
        ↔ IsCodeOf zeros secret secret-IsUsable (trim (codes " 000000")) (29 ∷ 59 ∷ 89 ∷ []))
verify_at_iff_example =
    verify_at_iff zeros secret secret-IsUsable (codes " 000000") 59 (omega arith)

abbrev uri : Text
uri = codes "otpauth://totp/x?issuer=y&period=30&secret=AE&period=0&digits=8"

abbrev pairs : List (Text × Text)
pairs =
    (codes "issuer", codes "y")
    ∷ (codes "period", codes "30")
    ∷ (codes "secret", codes "AE")
    ∷ (codes "period", codes "0")
    ∷ (codes "digits", codes "8")
    ∷ []

abbrev one_query : ParseUrl
one_query u = some pairs

scheme_is : starts_with uri (codes "otpauth://") ≡ true
unfolding starts_with
scheme_is = refl

decoded : base32_decode (codes "AE") ≡ ok (1 ∷ [])
unfolding base32_decode
decoded = refl

no_secret : (k v : Text) → text_eq k (codes "secret") ≡ false → Decodes (k, v)
no_secret k v n e = absurd (ground (arith, n, e))

pairs_readable : All Decodes pairs
unfolding text_eq
pairs_readable = (
  no_secret (codes "issuer") (codes "y") refl,
  (
    no_secret (codes "period") (codes "30") refl,
    (
      (λ e. (1 ∷ [], decoded)),
      (
        no_secret (codes "period") (codes "0") refl,
        (no_secret (codes "digits") (codes "8") refl, tt),
      ),
    ),
  ),
)

zero_is : parse_u32 (codes "0") ≡ some 0
unfolding parse_u32
zero_is = refl

has_secret : any is_secret pairs ≡ true
unfolding text_eq
has_secret = refl

last_is : last_period pairs ≡ some (codes "0")
unfolding text_eq
last_is = refl

parse_zero_period_example :
    (s : TotpSecret) × (parse one_query uri ≡ ok s)
    × ((h : Hmac) (unix : ℕ) → code_at h s unix ≡ none)
parse_zero_period_example =
    parse_zero_period one_query uri (codes "0") pairs scheme_is refl has_secret pairs_readable
      last_is zero_is
