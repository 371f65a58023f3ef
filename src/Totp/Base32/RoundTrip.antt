-- ===== src/Totp/Base32/RoundTrip.antt =====
-- Decoding what was encoded.
use vpn_password_manager.Base.{
  ℕ, ◌+◌, ◌-◌, ◌*◌, ◌/◌, ◌%◌, ◌^◌, ◌≤◌, ◌<◌, Bool, true, false, List, [], ◌∷◌, Option, none, some,
  ◌≡◌, refl, ◌∙◌, All, all_below, all_below_sound, ◌==◌, not, arith, is_empty,
}
use vpn_password_manager.Base.Bytes.{Bytes}
use vpn_password_manager.Error.{ok}
use vpn_password_manager.Totp.Base32.{
  alphabet, letter, push_letters, encode_from, base32_encode, to_ascii_uppercase, position,
  is_skipped, decode_from, base32_decode,
}

abbrev is_at : ℕ → Option ℕ → Bool
is_at v o = elim o [ none ↦ false | some i ↦ i == v ]

skipped_table : all_below 32 (λ v. not (is_skipped (letter v))) ≡ true
unfolding is_skipped letter
skipped_table = refl

position_table :
    all_below 32 (λ v. is_at v (position (to_ascii_uppercase (letter v)) alphabet)) ≡ true
unfolding position to_ascii_uppercase letter
position_table = refl

letter_kept : (v : ℕ) → v < 32 → is_skipped (letter v) ≡ false
letter_kept v h =
    ground (arith, all_below_sound 32 (λ x. not (is_skipped (letter x))) v skipped_table h)

position-letter : (v : ℕ) → v < 32 → position (to_ascii_uppercase (letter v)) alphabet ≡ some v
position-letter v h = ground (
  arith,
  all_below_sound 32 (λ x. is_at x (position (to_ascii_uppercase (letter x)) alphabet)) v
      position_table h,
)

abbrev next_buf : ℕ → ℕ → ℕ
next_buf buf v = buf * 32 % 2 ^ 32 + v

module _ (buf bits v : ℕ) (s : List ℕ) (small : v < 32) where
  decode_letter_more :
      bits + 5 < 8 → decode_from buf bits (letter v ∷ s) ≡ decode_from (next_buf buf v) (bits + 5) s
  unfolding decode_from
  decode_letter_more h = ground (arith, letter_kept v small, position-letter v small)

  decode_letter_out :
      (x : ℕ) (out : Bytes)
      → 8 ≤ bits + 5
      → next_buf buf v / 2 ^ (bits + 5 - 8) % 256 ≡ x
      → decode_from (next_buf buf v) (bits + 5 - 8) s ≡ ok out
      → decode_from buf bits (letter v ∷ s) ≡ ok (x ∷ out)
  unfolding decode_from
  decode_letter_out x out h same e =
      ground (arith, same, e, letter_kept v small, position-letter v small)

-- With `r` bits left in the encoder the decoder lacks them for the byte that it is at.
abbrev Pending : ℕ → ℕ → ℕ → ℕ → Type 0
Pending r buffer buf x = (x < 256) × (x ≡ buf % 2 ^ (8 - r) * 2 ^ r + buffer % 2 ^ r)

-- The decoder behind the encoder, whatever bytes come, for each number of bits left.
record Follows (bs : Bytes) : Type 0 where
  none_left : (buffer buf : ℕ) → decode_from buf 0 (encode_from buffer 0 bs) ≡ ok bs
  one_left :
      (buffer buf x : ℕ)
      → Pending 1 buffer buf x
      → decode_from buf 7 (encode_from buffer 1 bs) ≡ ok (x ∷ bs)
  two_left :
      (buffer buf x : ℕ)
      → Pending 2 buffer buf x
      → decode_from buf 6 (encode_from buffer 2 bs) ≡ ok (x ∷ bs)
  three_left :
      (buffer buf x : ℕ)
      → Pending 3 buffer buf x
      → decode_from buf 5 (encode_from buffer 3 bs) ≡ ok (x ∷ bs)
  four_left :
      (buffer buf x : ℕ)
      → Pending 4 buffer buf x
      → decode_from buf 4 (encode_from buffer 4 bs) ≡ ok (x ∷ bs)

decode_nil : (buf bits : ℕ) → decode_from buf bits [] ≡ ok []
unfolding decode_from
decode_nil buf bits = refl

Follows-nil : Follows []
unfolding encode_from decode_from
Follows-nil = record {
  none_left = λ buffer buf. refl;
  one_left = λ buffer buf x p.
      decode_letter_out buf 7 (buffer * 16 % 2 ^ 32 % 32) [] (omega arith) x [] (omega arith)
        (omega (arith, p)) refl;
  two_left = λ buffer buf x p.
      decode_letter_out buf 6 (buffer * 8 % 2 ^ 32 % 32) [] (omega arith) x [] (omega arith)
        (omega (arith, p)) refl;
  three_left = λ buffer buf x p.
      decode_letter_out buf 5 (buffer * 4 % 2 ^ 32 % 32) [] (omega arith) x [] (omega arith)
        (omega (arith, p)) refl;
  four_left = λ buffer buf x p.
      decode_letter_out buf 4 (buffer * 2 % 2 ^ 32 % 32) [] (omega arith) x [] (omega arith)
        (omega (arith, p)) refl;
}

module _ (b : ℕ) (bs : Bytes) (byte : b < 256) (h : Follows bs) where
  -- The encoder's buffer after the byte.
  abbrev fed : ℕ → ℕ
  fed buffer = buffer * 256 % 2 ^ 32 + b

  abbrev group : ℕ → ℕ → ℕ
  group buffer k = fed buffer / 2 ^ k % 32

  cons_none : (buffer buf : ℕ) → decode_from buf 0 (encode_from buffer 0 (b ∷ bs)) ≡ ok (b ∷ bs)
  unfolding encode_from push_letters
  cons_none buffer buf =
      decode_letter_more buf 0 (group buffer 3) (encode_from (fed buffer) 3 bs) (omega arith)
        (omega arith)
      ∙ h.three_left (fed buffer) (next_buf buf (group buffer 3)) b (byte, omega (arith, byte))

  cons_one :
      (buffer buf x : ℕ)
      → Pending 1 buffer buf x
      → decode_from buf 7 (encode_from buffer 1 (b ∷ bs)) ≡ ok (x ∷ b ∷ bs)
  unfolding encode_from push_letters
  cons_one buffer buf x p =
      let g = group buffer 4 in
      decode_letter_out buf 7 g (encode_from (fed buffer) 4 bs) (omega arith) x (b ∷ bs)
        (omega arith) (omega (arith, p, byte))
        (h.four_left (fed buffer) (next_buf buf g) b (byte, omega (arith, byte)))

  cons_two :
      (buffer buf x : ℕ)
      → Pending 2 buffer buf x
      → decode_from buf 6 (encode_from buffer 2 (b ∷ bs)) ≡ ok (x ∷ b ∷ bs)
  unfolding encode_from push_letters
  cons_two buffer buf x p =
      let g = group buffer 5 in
      let k = group buffer 0 in
      let rest = encode_from (fed buffer) 0 bs in
      decode_letter_out buf 6 g (letter k ∷ rest) (omega arith) x (b ∷ bs) (omega arith)
        (omega (arith, p, byte))
        (decode_letter_out (next_buf buf g) 3 k rest (omega arith) b bs (omega arith)
          (omega (arith, byte)) (h.none_left (fed buffer) (next_buf (next_buf buf g) k)))

  cons_three :
      (buffer buf x : ℕ)
      → Pending 3 buffer buf x
      → decode_from buf 5 (encode_from buffer 3 (b ∷ bs)) ≡ ok (x ∷ b ∷ bs)
  unfolding encode_from push_letters
  cons_three buffer buf x p =
      let g = group buffer 6 in
      let k = group buffer 1 in
      let rest = encode_from (fed buffer) 1 bs in
      decode_letter_out buf 5 g (letter k ∷ rest) (omega arith) x (b ∷ bs) (omega arith)
        (omega (arith, p, byte))
        (decode_letter_more (next_buf buf g) 2 k rest (omega arith) (omega arith)
          ∙ h.one_left (fed buffer) (next_buf (next_buf buf g) k) b (byte, omega (arith, byte)))

  cons_four :
      (buffer buf x : ℕ)
      → Pending 4 buffer buf x
      → decode_from buf 4 (encode_from buffer 4 (b ∷ bs)) ≡ ok (x ∷ b ∷ bs)
  unfolding encode_from push_letters
  cons_four buffer buf x p =
      let g = group buffer 7 in
      let k = group buffer 2 in
      let rest = encode_from (fed buffer) 2 bs in
      decode_letter_out buf 4 g (letter k ∷ rest) (omega arith) x (b ∷ bs) (omega arith)
        (omega (arith, p, byte))
        (decode_letter_more (next_buf buf g) 1 k rest (omega arith) (omega arith)
          ∙ h.two_left (fed buffer) (next_buf (next_buf buf g) k) b (byte, omega (arith, byte)))

  Follows-cons : Follows (b ∷ bs)
  Follows-cons = record {
    none_left = cons_none;
    one_left = cons_one;
    two_left = cons_two;
    three_left = cons_three;
    four_left = cons_four;
  }

always-Follows : (bs : Bytes) → All (λ b. b < 256) bs → Follows bs
always-Follows [] a = Follows-nil
always-Follows (b ∷ bs) a = Follows-cons b bs a.0 (always-Follows bs a.1)

-- Bytes that are not empty are decoded again from their base32.
pub base32_decode-base32_encode :
    (bs : Bytes)
    → is_empty bs ≡ false
    → All (λ b. b < 256) bs
    → base32_decode (base32_encode bs) ≡ ok bs
unfolding base32_decode base32_encode
base32_decode-base32_encode bs some_byte a =
    ground (arith, some_byte, (always-Follows bs a).none_left 0 0)
