-- ===== src/Keyring/Canonical.antt =====
-- A blob that parses is the encoding of what it parses to.
use vpn_password_manager.Base.{
  ℕ, zero, suc, ◌+◌, ◌/◌, ◌%◌, ◌^◌, ◌≤◌, ◌<◌, true, List, [], ◌∷◌, ◌++◌, ◌≡◌, refl, ap, sym, subst,
  ◌∙◌, All, length, take, drop, text_eq_iff, inl, inr, arith,
}
use vpn_password_manager.Base.Bytes.{Bytes, to_le, from_le}
use vpn_password_manager.Error.{ok, ok-injective, Result-cases}
use vpn_password_manager.Keyring.{
  WrapperType, platform, phone, recovery, password, code, from_code, WrappedBlob, byte_at,
  same_wrapper, header, parse, magic, version,
}

take-drop : {A : Type 0} (n : ℕ) (xs : List A) → take n xs ++ drop n xs ≡ xs
take-drop zero xs = refl
take-drop (suc n) [] = refl
take-drop (suc n) (x ∷ xs) = ap (◌∷◌ x) (take-drop n xs)

drop_nil : {A : Type 0} (i : ℕ) → [] ≡ drop {A = A} i []
drop_nil zero = refl
drop_nil (suc i) = refl

drop-drop : {A : Type 0} (m n k : ℕ) (xs : List A) → k ≡ m + n → drop k xs ≡ drop n (drop m xs)
drop-drop zero n k xs h = let same : k ≡ n = omega arith in ap (λ i. drop i xs) same
drop-drop (suc m) n zero xs h = absurd (omega arith)
drop-drop (suc m) n (suc k) [] h = drop_nil n
drop-drop (suc m) n (suc k) (x ∷ xs) h = drop-drop m n k xs (omega arith)

-- The bytes of a blob with at least eight.
first_eight :
    (b : Bytes)
    → 8 ≤ length b
    → (b0 b1 b2 b3 b4 b5 b6 b7 : ℕ) × (rest : Bytes) × (b
        ≡ b0 ∷ b1 ∷ b2 ∷ b3 ∷ b4 ∷ b5 ∷ b6 ∷ b7 ∷ rest)
first_eight (b0 ∷ b1 ∷ b2 ∷ b3 ∷ b4 ∷ b5 ∷ b6 ∷ b7 ∷ rest) h =
    (b0, b1, b2, b3, b4, b5, b6, b7, rest, refl)
first_eight [] h = absurd (omega arith)
first_eight (b0 ∷ []) h = absurd (omega arith)
first_eight (b0 ∷ b1 ∷ []) h = absurd (omega arith)
first_eight (b0 ∷ b1 ∷ b2 ∷ []) h = absurd (omega arith)
first_eight (b0 ∷ b1 ∷ b2 ∷ b3 ∷ []) h = absurd (omega arith)
first_eight (b0 ∷ b1 ∷ b2 ∷ b3 ∷ b4 ∷ []) h = absurd (omega arith)
first_eight (b0 ∷ b1 ∷ b2 ∷ b3 ∷ b4 ∷ b5 ∷ []) h = absurd (omega arith)
first_eight (b0 ∷ b1 ∷ b2 ∷ b3 ∷ b4 ∷ b5 ∷ b6 ∷ []) h = absurd (omega arith)

code-from_code : (n : ℕ) (w : WrapperType) → from_code n ≡ ok w → n ≡ code w
unfolding from_code code
code-from_code zero w h = cc
code-from_code (suc zero) w h = ap code (ok-injective h)
code-from_code (suc (suc zero)) w h = ap code (ok-injective h)
code-from_code (suc (suc (suc zero))) w h = ap code (ok-injective h)
code-from_code (suc (suc (suc (suc zero)))) w h = ap code (ok-injective h)
code-from_code (suc (suc (suc (suc (suc n))))) w h = cc

same_wrapper_eq : (v w : WrapperType) → same_wrapper v w ≡ true → v ≡ w
unfolding same_wrapper
same_wrapper_eq platform w h = ground arith
same_wrapper_eq phone w h = ground arith
same_wrapper_eq recovery w h = ground arith
same_wrapper_eq password w h = ground arith

-- The two bytes of the length.
length_bytes :
    (a b n : ℕ) → a < 256 → b < 256 → n ≡ from_le (a ∷ b ∷ []) → to_le 2 (n % 2 ^ 16) ≡ a ∷ b ∷ []
unfolding to_le from_le
length_bytes a b n p q h =
    let low : n % 65536 % 256 ≡ a = omega arith in
    let high : n % 65536 / 256 % 256 ≡ b = omega arith in rw (low, high) refl

-- What the checks of a parse that succeeds have found.
parse_inv :
    (blob : WrappedBlob) (ps nonce ct : Bytes)
    → parse blob ≡ ok (ps, nonce, ct)
    → let b = blob.bytes in
      let len = from_le (byte_at 6 b ∷ byte_at 7 b ∷ []) in
      (8 ≤ length b)
      × (take 4 b ≡ magic)
      × (byte_at 4 b ≡ version)
      × (byte_at 5 b ≡ code blob.wrapper)
      × (length b ≡ 8 + len + 72)
      × (take len (drop 8 b) ≡ ps)
      × (take 24 (drop (8 + len) b) ≡ nonce)
      × (drop (8 + len + 24) b ≡ ct)
unfolding parse
parse_inv blob ps nonce ct h =
    let b = blob.bytes in
    elim (Result-cases (from_code (byte_at 5 b))) [
      | inl (e, p) ↦ absurd (ground (arith, h, p))
      | inr (w, p) ↦
          let same = code-from_code (byte_at 5 b) w p in
          ground (arith, h, p, text_eq_iff (take 4 b) magic, same, same_wrapper_eq w blob.wrapper)
    ]

length-take : {A : Type 0} (n : ℕ) (xs : List A) → n ≤ length xs → length (take n xs) ≡ n
length-take zero xs h = refl
length-take (suc n) [] h = absurd (omega arith)
length-take (suc n) (x ∷ xs) h = omega (arith, length-take n xs (omega arith))

length-drop :
    {A : Type 0} (n : ℕ) (xs : List A) → n ≤ length xs → length xs ≡ n + length (drop n xs)
length-drop zero xs h = omega arith
length-drop (suc n) [] h = absurd (omega arith)
length-drop (suc n) (x ∷ xs) h = omega (arith, length-drop n xs (omega arith))

-- Three fields, cut one behind the other.
three_fields :
    (n : ℕ) (rest : Bytes) → take n rest ++ (take 24 (drop n rest) ++ drop 24 (drop n rest)) ≡ rest
three_fields n rest = ap (λ x. take n rest ++ x) (take-drop 24 (drop n rest)) ∙ take-drop n rest

abbrev pub IsEncoding : WrapperType → Bytes → Bytes → Bytes → Bytes → Type 0
IsEncoding w ps nonce ct bytes =
    (bytes ≡ header w ps ++ (nonce ++ ct)) × (length nonce ≡ 24) × (length ct ≡ 48)

canonical_eight :
    (w : WrapperType) (b0 b1 b2 b3 b4 b5 b6 b7 : ℕ) (rest ps nonce ct : Bytes)
    → let b = b0 ∷ b1 ∷ b2 ∷ b3 ∷ b4 ∷ b5 ∷ b6 ∷ b7 ∷ rest in
      All (λ x. x < 256) b
      → parse (record { wrapper = w; bytes = b }) ≡ ok (ps, nonce, ct)
      → IsEncoding w ps nonce ct b
unfolding header
canonical_eight w b0 b1 b2 b3 b4 b5 b6 b7 rest ps nonce ct small h =
    let b = b0 ∷ b1 ∷ b2 ∷ b3 ∷ b4 ∷ b5 ∷ b6 ∷ b7 ∷ rest in
    let len = from_le (b6 ∷ b7 ∷ []) in
    let (long, front, ver, wrap, total, p, n, c) =
      parse_inv (record { wrapper = w; bytes = b }) ps nonce ct h in
    let room : length rest ≡ len + 72 = omega arith in
    let size : length ps ≡ len = ap length (sym p) ∙ length-take len rest (omega arith) in
    let two = length_bytes b6 b7 (length ps) small.1.1.1.1.1.1.0 small.1.1.1.1.1.1.1.0 size in
    let n' : nonce ≡ take 24 (drop len rest) =
      sym n ∙ ap (take 24) (drop-drop 8 len (8 + len) b refl) in
    let c' : ct ≡ drop 24 (drop len rest) =
      sym c
      ∙ drop-drop (8 + len) 24 (8 + len + 24) b refl
      ∙ ap (drop 24) (drop-drop 8 len (8 + len) b refl) in
    let left : length (drop len rest) ≡ 72 = omega (arith, length-drop len rest (omega arith)) in
    let body : ps ++ (nonce ++ ct) ≡ rest = rw (← p, n', c') (three_fields len rest) in
    (
      rw two (ground (arith, front, ver, wrap, body)),
      ap length n' ∙ length-take 24 (drop len rest) (omega arith),
      ap length c' ∙ omega (arith, length-drop 24 (drop len rest) (omega arith)),
    )

-- A blob of bytes that parses is exactly the encoding of its wrapper and of the parameters, nonce
-- and ciphertext that it parses to, with a nonce of 24 bytes and a ciphertext of 48: no other
-- bytes parse to them.
pub parse-IsEncoding :
    (blob : WrappedBlob) (ps nonce ct : Bytes)
    → All (λ x. x < 256) blob.bytes
    → parse blob ≡ ok (ps, nonce, ct)
    → IsEncoding blob.wrapper ps nonce ct blob.bytes
parse-IsEncoding blob ps nonce ct small h =
    let (b0, b1, b2, b3, b4, b5, b6, b7, rest, e) =
      first_eight blob.bytes (parse_inv blob ps nonce ct h).0 in
    subst
      (λ b.
        All (λ x. x < 256) b
        → parse (record { wrapper = blob.wrapper; bytes = b }) ≡ ok (ps, nonce, ct)
        → IsEncoding blob.wrapper ps nonce ct b)
      (sym e) (canonical_eight blob.wrapper b0 b1 b2 b3 b4 b5 b6 b7 rest ps nonce ct) small h
