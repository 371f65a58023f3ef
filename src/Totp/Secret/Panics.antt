-- ===== src/Totp/Secret/Panics.antt =====
-- The code of a secret whose period is 0.
use vpn_password_manager.Base.{
  ℕ, Text, codes, text_eq, text_eq_iff, true, false, Bool, List, [], ◌∷◌, Option, none, some, ◌≡◌,
  refl, ap, ◌∙◌, arith, any, All, ◌⊎◌, inl, inr, Bool-cases, Option-cases, if◌then◌else◌,
}
use vpn_password_manager.Base.Bytes.{Bytes}
use vpn_password_manager.Base.Format.{parse_u32}
use vpn_password_manager.Error.{ok}
use vpn_password_manager.Totp.Base32.{base32_decode}
use vpn_password_manager.Totp.Secret.{
  sha1, TotpSecret, ParseUrl, Hmac, UriFields, unwrap_or, parse_u8, parse_algo, read_pair,
  read_pairs, parse_uri, parse, starts_with, code_at,
}

abbrev start : UriFields
start = record { secret = none; algo = sha1; digits = 6; period = 30 }

abbrev pub is_secret : Text × Text → Bool
is_secret pair = text_eq pair.0 (codes "secret")

-- A pair that is named a secret holds base32.
abbrev pub Decodes : Text × Text → Type 0
Decodes pair = is_secret pair ≡ true → (raw : Bytes) × (base32_decode pair.1 ≡ ok raw)

-- The text of the last pair that is named a period.
abbrev pub last_period : List (Text × Text) → Option Text
last_period [] = none
last_period ((k, v) ∷ pairs) = elim (last_period pairs) [
  | some last ↦ some last
  | none ↦ if text_eq k (codes "period") then some v else none
]

-- The period that a loop over the pairs leaves, from this one.
abbrev period_after : ℕ → List (Text × Text) → ℕ
period_after p [] = p
period_after p ((k, v) ∷ pairs) =
    period_after (if text_eq k (codes "period") then unwrap_or (parse_u32 v) 30 else p) pairs

abbrev HasSecret : UriFields → Type 0
HasSecret f = (raw : Bytes) × (f.secret ≡ some raw)

secret_is_no_period :
    (k : Text) → text_eq k (codes "secret") ≡ true → text_eq k (codes "period") ≡ false
unfolding text_eq
secret_is_no_period k e = rw ((text_eq_iff k (codes "secret")).0 e) refl

algorithm_is_no_period :
    (k : Text) → text_eq k (codes "algorithm") ≡ true → text_eq k (codes "period") ≡ false
unfolding text_eq
algorithm_is_no_period k e = rw ((text_eq_iff k (codes "algorithm")).0 e) refl

digits_is_no_period :
    (k : Text) → text_eq k (codes "digits") ≡ true → text_eq k (codes "period") ≡ false
unfolding text_eq
digits_is_no_period k e = rw ((text_eq_iff k (codes "digits")).0 e) refl

-- A pair that is no secret is read without an error, and leaves the secret.
read_other :
    (f : UriFields) (k v : Text)
    → text_eq k (codes "secret") ≡ false
    → (g : UriFields) × (read_pair f k v ≡ ok g)
      × (g.period ≡ (if text_eq k (codes "period") then unwrap_or (parse_u32 v) 30 else f.period))
      × (g.secret ≡ f.secret)
unfolding read_pair
read_other f k v n = elim (Bool-cases (text_eq k (codes "algorithm"))) [
  | inl a ↦
      (record f { algo = parse_algo v }, rw (n, a) refl, rw (algorithm_is_no_period k a) refl, refl)
  | inr a ↦ elim (Bool-cases (text_eq k (codes "digits"))) [
    | inl b ↦ (
      record f { digits = unwrap_or (parse_u8 v) 6 },
      rw (n, a, b) refl,
      rw (digits_is_no_period k b) refl,
      refl,
    )
    | inr b ↦ elim (Bool-cases (text_eq k (codes "period"))) [
      | inl c ↦
          (record f { period = unwrap_or (parse_u32 v) 30 }, rw (n, a, b, c) refl, rw c refl, refl)
      | inr c ↦ (f, rw (n, a, b, c) refl, rw c refl, refl)
    ]
  ]
]

read_pair_lem :
    (f : UriFields) (k v : Text)
    → Decodes (k, v)
    → (g : UriFields) × (read_pair f k v ≡ ok g)
      × (g.period ≡ (if text_eq k (codes "period") then unwrap_or (parse_u32 v) 30 else f.period))
      × ((HasSecret f ⊎ (is_secret (k, v) ≡ true)) → HasSecret g)
unfolding read_pair
read_pair_lem f k v d = elim (Bool-cases (text_eq k (codes "secret"))) [
  | inl a ↦
      let (raw, p) = d a in
      (
        record f { secret = some raw },
        rw (a, p) refl,
        rw (secret_is_no_period k a) refl,
        λ h. (raw, refl),
      )
  | inr a ↦
      let (g, e, period, secret) = read_other f k v a in
      (
        g,
        e,
        period,
        λ h. elim h [ inl (raw, q) ↦ (raw, secret ∙ q) | inr q ↦ absurd (ground (arith, a, q)) ],
      )
]

read_pairs_lem :
    (f : UriFields) (pairs : List (Text × Text))
    → All Decodes pairs
    → (g : UriFields) × (read_pairs f pairs ≡ ok g)
      × (g.period ≡ period_after f.period pairs)
      × ((HasSecret f ⊎ (any is_secret pairs ≡ true)) → HasSecret g)
unfolding read_pairs
read_pairs_lem f [] d = (f, refl, refl, λ h. elim h [ inl s ↦ s | inr q ↦ cc ])
read_pairs_lem f ((k, v) ∷ pairs) (d, ds) =
    let (g, e, period, secret) = read_pair_lem f k v d in
    let (last, e', period', secret') = read_pairs_lem g pairs ds in
    (
      last,
      ground (arith, e, e'),
      period' ∙ ap (λ p. period_after p pairs) period,
      λ h. secret' (elim h [
        | inl s ↦ inl (secret (inl s))
        | inr q ↦ elim (Bool-cases (is_secret (k, v))) [
          | inl a ↦ inl (secret (inr a))
          | inr a ↦ inr (ground (arith, a, q))
        ]
      ]),
    )

period_after-none :
    (p : ℕ) (pairs : List (Text × Text)) → last_period pairs ≡ none → period_after p pairs ≡ p
period_after-none p [] e = refl
period_after-none p ((k, v) ∷ pairs) e = elim (Option-cases (last_period pairs)) [
  | inr (w, q) ↦ absurd (ground (arith, e, q))
  | inl q ↦ elim (Bool-cases (text_eq k (codes "period"))) [
    | inl a ↦ absurd (ground (arith, e, q, a))
    | inr a ↦ rw a (period_after-none p pairs q)
  ]
]

period_after-some :
    (p : ℕ) (pairs : List (Text × Text)) (last : Text)
    → last_period pairs ≡ some last
    → period_after p pairs ≡ unwrap_or (parse_u32 last) 30
period_after-some p [] last e = absurd (ground (arith, e))
period_after-some p ((k, v) ∷ pairs) last e = elim (Option-cases (last_period pairs)) [
  | inr (w, q) ↦
      period_after-some (if text_eq k (codes "period") then unwrap_or (parse_u32 v) 30 else p) pairs
        last (ground (arith, e, q))
  | inl q ↦ elim (Bool-cases (text_eq k (codes "period"))) [
    | inl a ↦
        let same : v ≡ last = ground (arith, e, q, a) in
        rw (a, same) (period_after-none (unwrap_or (parse_u32 last) 30) pairs q)
    | inr a ↦ absurd (ground (arith, e, q, a))
  ]
]

code_at_zero : (h : Hmac) (s : TotpSecret) (unix : ℕ) → s.period ≡ 0 → code_at h s unix ≡ none
unfolding code_at
code_at_zero h s unix e = ground (arith, e)

-- If the query of an `otpauth://` URI has a secret, every secret in it decodes, and its last period
-- reads as 0, whatever else it holds and in any order, then the URI is parsed to a secret, and the
-- code of that secret panics at every time.
pub parse_zero_period :
    (url : ParseUrl) (uri last : Text) (query : List (Text × Text))
    → starts_with uri (codes "otpauth://") ≡ true
    → url uri ≡ some query
    → any is_secret query ≡ true
    → All Decodes query
    → last_period query ≡ some last
    → parse_u32 last ≡ some 0
    → (s : TotpSecret) × (parse url uri ≡ ok s) × ((h : Hmac) (unix : ℕ) → code_at h s unix ≡ none)
unfolding parse parse_uri
parse_zero_period url uri last query scheme parsed has decodes at zero =
    let (f, reads, period, secret) = read_pairs_lem start query decodes in
    let (raw, is_raw) = secret (inr has) in
    let none_left : f.period ≡ 0 =
      period ∙ period_after-some 30 query last at ∙ ap (λ o. unwrap_or o 30) zero in
    let s : TotpSecret = record {
      raw = raw;
      algo = f.algo;
      digits = f.digits;
      period = f.period;
    } in
    (s, ground (arith, scheme, parsed, reads, is_raw), λ h unix. code_at_zero h s unix none_left)
