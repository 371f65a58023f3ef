-- ===== src/Totp/Secret/Check.antt =====
-- Which codes are let through.
use Prim.Native.Nat.{bit_or, bit_xor}
use vpn_password_manager.Base.{
  ℕ, zero, suc, ◌+◌, ◌-◌, ◌^◌, ◌%◌, ◌≤◌, ◌<◌, Text, Bool, true, false, List, [], ◌∷◌, some, ◌≡◌,
  refl, ap, ◌∙◌, ◌↔◌, ◌⊎◌, inl, inr, length, drop, reverse, length-reverse, all_below,
  all_below_sound, not, ◌&&◌, ◌/◌, ◌==◌, Bool-cases, arith, pos, ◌+ℤ◌, ◌-ℤ◌,
}
use vpn_password_manager.Base.Bytes.{Bytes, to_le, i64_bits, i64_of_bits}
use vpn_password_manager.Base.Bits.{bit_or_zero, bit_xor_zero, bit_xor_self}
use vpn_password_manager.Base.Format.{trim}
use vpn_password_manager.Totp.Secret.{
  TotpAlgo, sha1, sha256, sha512, TotpSecret, Hmac, digest_size, first_word, truncated, zero_padded,
  differing, ct_eq, code_at, any_code, time_at, verify_at,
}

differing_zero :
    (d : ℕ) (a b : Text) → length a ≡ length b → differing d a b ≡ 0 → (d ≡ 0) × (a ≡ b)
unfolding differing
differing_zero d [] [] l e = (e, refl)
differing_zero d [] (y ∷ b) l e = absurd (omega (arith, l))
differing_zero d (x ∷ a) [] l e = absurd (omega (arith, l))
differing_zero d (x ∷ a) (y ∷ b) l e =
    let (here, rest) = differing_zero (bit_or d (bit_xor x y)) a b (omega (arith, l)) e in
    let (d_zero, same) = bit_or_zero d (bit_xor x y) here in
    (d_zero, ground (arith, bit_xor_zero x y same, rest))

differing_self : (a : Text) → differing 0 a a ≡ 0
unfolding differing
differing_self [] = refl
differing_self (x ∷ a) = rw (bit_xor_self x) (differing_self a)

-- The comparison that takes the same time for all codes of a length is the equality of texts.
pub ct_eq_iff : (a b : Text) → (ct_eq a b ≡ true) ↔ (a ≡ b)
unfolding ct_eq
ct_eq_iff a b =
    (λ h. ground (arith, differing_zero 0 a b), λ e. rw e (ground (arith, differing_self b)))

-- The parameters with which every code can be computed.
pub record IsUsable (s : TotpSecret) : Type 0 where
  pub positive : 0 < s.period
  pub few_digits : s.digits < 10

pub modulo_table : all_below 10 (λ d. 10 ^ d % 2 ^ 32 == 10 ^ d && not (10 ^ d == 0)) ≡ true
modulo_table = refl

pub modulo_lem : (d : ℕ) → d < 10 → (10 ^ d % 2 ^ 32 ≡ 10 ^ d) × (0 < 10 ^ d)
modulo_lem d lt =
    let here : (10 ^ d % 2 ^ 32 == 10 ^ d && not (10 ^ d == 0)) ≡ true =
      all_below_sound 10 (λ d. 10 ^ d % 2 ^ 32 == 10 ^ d && not (10 ^ d == 0)) d modulo_table lt in
    ground (arith, here)

first_word_total : (b : Bytes) → 4 ≤ length b → (n : ℕ) × (first_word b ≡ some n)
unfolding first_word
first_word_total [] le = absurd (omega arith)
first_word_total (b0 ∷ []) le = absurd (omega arith)
first_word_total (b0 ∷ b1 ∷ []) le = absurd (omega arith)
first_word_total (b0 ∷ b1 ∷ b2 ∷ []) le = absurd (omega arith)
first_word_total (b0 ∷ b1 ∷ b2 ∷ b3 ∷ rest) le = (_, refl)

length-drop : (n : ℕ) (b : Bytes) → length (drop n b) ≡ length b - n
length-drop zero b = omega arith
length-drop (suc n) [] = omega arith
length-drop (suc n) (x ∷ b) = omega (arith, length-drop n b)

List-cases : (b : Bytes) → (b ≡ []) ⊎ ((x : ℕ) × (rest : Bytes) × (b ≡ x ∷ rest))
List-cases [] = inl refl
List-cases (x ∷ b) = inr (x, b, refl)

-- A digest of at least 19 bytes has four bytes at every offset below 16.
pub truncated_total : (b : Bytes) → 19 ≤ length b → (n : ℕ) × (truncated b ≡ some n)
unfolding truncated
truncated_total b le = elim (List-cases (reverse b)) [
  | inl e ↦ absurd (omega (arith, ap length e, length-reverse b, le))
  | inr (last, rest, e) ↦
      let (n, p) =
        first_word_total (drop (last % 16) b) (omega (arith, length-drop (last % 16) b, le)) in
      (n, ground (arith, e, p))
]

time_before : (unix p : ℕ) → unix + p < 2 ^ 63 → time_at unix (pos 0 -ℤ pos p) ≡ unix - p
unfolding time_at i64_of_bits i64_bits ◌+ℤ◌ ◌-ℤ◌
time_before unix p small = ground (arith, small)

time_now : (unix : ℕ) → unix < 2 ^ 63 → time_at unix (pos 0) ≡ unix
unfolding time_at i64_of_bits i64_bits ◌+ℤ◌ ◌-ℤ◌
time_now unix small = ground (arith, small)

time_after : (unix p : ℕ) → unix + p < 2 ^ 63 → time_at unix (pos p) ≡ unix + p
unfolding time_at i64_of_bits i64_bits ◌+ℤ◌ ◌-ℤ◌
time_after unix p small = ground (arith, small)

module _ (h : Hmac) (s : TotpSecret) (usable : IsUsable s) where
  digest_size_le : (a : TotpAlgo) → 19 ≤ digest_size a
  digest_size_le sha1 = omega arith
  digest_size_le sha256 = omega arith
  digest_size_le sha512 = omega arith

  abbrev pub message : ℕ → Bytes
  message unix = reverse (to_le 8 (unix / s.period))

  pub code_at_lem :
      (unix : ℕ)
      → (bin : ℕ) × (truncated (h.digest s.algo s.raw (message unix)) ≡ some bin)
        × (code_at h s unix ≡ some (zero_padded s.digits (bin % 10 ^ s.digits)))
  unfolding code_at
  code_at_lem unix =
      let long : 19 ≤ length (h.digest s.algo s.raw (message unix)) =
        omega (arith, digest_size_le s.algo, h.length_digest s.algo s.raw (message unix)) in
      let (bin, p) = truncated_total (h.digest s.algo s.raw (message unix)) long in
      let (same, some_value) = modulo_lem s.digits usable.few_digits in
      (bin, p, ground (arith, usable.positive, same, some_value, p))

  -- The code is that of one of these times.
  abbrev pub IsCodeOf : Text → List ℕ → Type 0
  IsCodeOf code [] = ⊥
  IsCodeOf code (t ∷ ts) = (code_at h s t ≡ some code) ⊎ IsCodeOf code ts

  any_code_lem :
      (code : Text) (ts : List ℕ)
      → (b : Bool) × (any_code h s code ts ≡ some b) × ((b ≡ true) ↔ IsCodeOf code ts)
  unfolding any_code
  any_code_lem code [] = (false, refl, ((λ e. cc), λ x. absurd x))
  any_code_lem code (t ∷ ts) =
      let (bin, p, q) = code_at_lem t in
      let c = zero_padded s.digits (bin % 10 ^ s.digits) in
      let (b, rest, iff) = any_code_lem code ts in
      elim (Bool-cases (ct_eq c code)) [
        | inl same ↦
            let is : c ≡ code = (ct_eq_iff c code).0 same in
            (true, ground (arith, q, same), ((λ e. inl (q ∙ ap some is)), λ x. refl))
        | inr other ↦ (
          b,
          ground (arith, q, other, rest),
          (
            λ e. inr (iff.0 e),
            λ x. elim x [
              | inl e ↦ absurd (ground (arith, q, e, other, ct_eq_iff c code))
              | inr i ↦ iff.1 i
            ],
          ),
        )
      ]

  -- If the period is not 0 and there are fewer than 10 digits, a code is checked without a panic at
  -- every time that stays below 2 ^ 63 with a period added, and let through exactly if, without the
  -- white space around it, it is the code of that time or of a period before or after, where a time
  -- before 0 counts as 0.
  pub verify_at_iff :
      (code : Text) (unix : ℕ)
      → unix + s.period < 2 ^ 63
      → (b : Bool) × (verify_at h s code unix ≡ some b)
        × ((b ≡ true) ↔ IsCodeOf (trim code) ((unix - s.period) ∷ unix ∷ (unix + s.period) ∷ []))
  unfolding verify_at
  verify_at_iff code unix small =
      rw (time_before unix s.period small, time_now unix small', time_after unix s.period small)
        (any_code_lem (trim code) ((unix - s.period) ∷ unix ∷ (unix + s.period) ∷ []))
    where
      small' : unix < 2 ^ 63
      small' = omega (arith, small)
