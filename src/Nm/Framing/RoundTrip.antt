-- ===== src/Nm/Framing/RoundTrip.antt =====
-- Frames that are written are read back, and a frame cut short is waited for.
use vpn_password_manager.Base.{
  ℕ, zero, suc, ◌+◌, ◌%◌, ◌^◌, ◌≤◌, ◌<◌, List, [], ◌∷◌, ◌++◌, some, ◌≡◌, refl, ap, sym, ◌∙◌, length,
  take, drop, ltb, leb, if◌then◌else◌, length-append, take-append, drop-append, append_assoc,
  append-nil, Bool-cases, arith, inl, inr,
}
use vpn_password_manager.Base.Bytes.{Bytes, to_le, from_le, length-to_le, from_le-to_le}
use vpn_password_manager.Error.{ok, err}
use vpn_password_manager.Nm.Protocol.{NmEnvelope}
use vpn_password_manager.Nm.Framing.{
  max_message_bytes, incomplete, too_large, EnvelopeJson, encode_frame, decode_frame,
}

length-take_le : {A : Type 0} (k : ℕ) (xs : List A) → k ≤ length xs → length (take k xs) ≡ k
length-take_le zero xs h = refl
length-take_le (suc k) [] h = absurd (omega arith)
length-take_le (suc k) (x ∷ xs) h = omega (arith, length-take_le k xs (omega arith))

take-take : {A : Type 0} (m n : ℕ) (xs : List A) → m ≤ n → take m (take n xs) ≡ take m xs
take-take zero n xs h = refl
take-take (suc m) zero xs h = absurd (omega arith)
take-take (suc m) (suc n) [] h = refl
take-take (suc m) (suc n) (x ∷ xs) h = ap (◌∷◌ x) (take-take m n xs (omega arith))

take_nil : {A : Type 0} (n : ℕ) → [] ≡ take {A = A} n []
take_nil zero = refl
take_nil (suc n) = refl

drop-take :
    {A : Type 0} (m n k : ℕ) (xs : List A) → k ≡ m + n → drop m (take k xs) ≡ take n (drop m xs)
drop-take zero n k xs h = let same : k ≡ n = omega arith in ap (λ i. take i xs) same
drop-take (suc m) n zero xs h = absurd (omega arith)
drop-take (suc m) n (suc k) [] h = take_nil n
drop-take (suc m) n (suc k) (x ∷ xs) h = drop-take m n k xs (omega arith)

module _ {Value : Type 0} (json : EnvelopeJson Value) (env : NmEnvelope Value) where
  abbrev size : ℕ
  size = length (json.to_vec env)

  length-encode_frame : length (encode_frame json env) ≡ 4 + size
  unfolding encode_frame
  length-encode_frame = omega (
    arith,
    length-append (to_le 4 (size % 2 ^ 32)) (json.to_vec env),
    length-to_le 4 (size % 2 ^ 32),
  )

  prefix_field :
      (rest : Bytes) → size < 2 ^ 32 → from_le (take 4 (encode_frame json env ++ rest)) ≡ size
  unfolding encode_frame
  prefix_field rest h =
      let n = size % 2 ^ 32 in
      let cut : take 4 ((to_le 4 n ++ json.to_vec env) ++ rest) ≡ to_le 4 n =
        rw append_assoc (take-append (to_le 4 n) (json.to_vec env ++ rest) 4 (length-to_le 4 n)) in
      rw cut (omega (arith, from_le-to_le 4 n (omega arith)))

  body_field : (rest : Bytes) → take size (drop 4 (encode_frame json env ++ rest)) ≡ json.to_vec env
  unfolding encode_frame
  body_field rest =
      let n = size % 2 ^ 32 in
      let cut : drop 4 ((to_le 4 n ++ json.to_vec env) ++ rest) ≡ json.to_vec env ++ rest =
        rw append_assoc (drop-append (to_le 4 n) (json.to_vec env ++ rest) 4 (length-to_le 4 n)) in
      rw cut (take-append (json.to_vec env) rest size refl)

  length-stream : (rest : Bytes) → length (encode_frame json env ++ rest) ≡ 4 + size + length rest
  length-stream rest =
      omega (arith, length-append (encode_frame json env) rest, length-encode_frame)

  -- For an envelope whose JSON text reads back and is shorter than 2 ^ 32 bytes: with any bytes
  -- behind it, its frame is decoded to the envelope and its own length if the text has at most
  -- 1 MiB, and is refused as too large otherwise, although it was written.
  pub decode_frame-encode_frame :
      (rest : Bytes)
      → size < 2 ^ 32
      → json.from_slice (json.to_vec env) ≡ some env
      → decode_frame json (encode_frame json env ++ rest) ≡ (
          if leb size max_message_bytes
          then ok (env, length (encode_frame json env))
          else err (too_large size))
  unfolding decode_frame
  decode_frame-encode_frame rest h back =
      let body = body_field rest in
      rw (prefix_field rest h, body, back, length-stream rest, length-encode_frame)
        (ground (arith, prefix_field rest h))

  -- Every part of a frame that is cut short, where the whole has at most 1 MiB of text, is
  -- reported as incomplete.
  pub decode_frame-take :
      (k : ℕ)
      → size ≤ max_message_bytes
      → k < length (encode_frame json env)
      → decode_frame json (take k (encode_frame json env)) ≡ err incomplete
  unfolding decode_frame
  decode_frame-take k h short =
      let part = take k (encode_frame json env) in
      let long : length part ≡ k = length-take_le k (encode_frame json env) (omega arith) in
      elim (Bool-cases (ltb k 4)) [
        | inl few ↦ rw long (ground (arith, few))
        | inr few ↦
            let many : 4 ≤ k = ground (arith, few) in
            let whole : from_le (take 4 part) ≡ size =
              ap from_le (take-take 4 k (encode_frame json env) many)
              ∙ ap (λ b. from_le (take 4 b)) (sym (append-nil (encode_frame json env)))
              ∙ prefix_field [] (omega (arith, h)) in
            rw (long, whole) (ground (arith, length-encode_frame, short, h))
      ]

-- A frame that is decoded takes between 4 bytes and 4 bytes more than 1 MiB, all of them there, and
-- its envelope is read from the bytes behind the first four.
pub decode_frame_lem :
    {Value : Type 0} (json : EnvelopeJson Value) (buf : Bytes) (env : NmEnvelope Value) (n : ℕ)
    → decode_frame json buf ≡ ok (env, n)
    → (4 ≤ n)
      × (n ≤ 4 + max_message_bytes)
      × (n ≤ length buf)
      × (json.from_slice (drop 4 (take n buf)) ≡ some env)
unfolding decode_frame
decode_frame_lem json buf env n h =
    let len = from_le (take 4 buf) in ground (arith, drop-take 4 len n buf, h)
