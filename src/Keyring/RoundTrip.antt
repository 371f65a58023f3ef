-- ===== src/Keyring/RoundTrip.antt =====
-- A sealed vault key is parsed and opened again.
use vpn_password_manager.Base.{
  ◌+◌, ◌-◌, ◌<◌, true, [], ◌∷◌, ◌++◌, ◌≡◌, refl, length, take, drop, length-append, take-append,
  drop-append, append_assoc, text_eq_refl, arith,
}
use vpn_password_manager.Base.Bytes.{Bytes, to_le, from_le}
use vpn_password_manager.Error.{ok}
use vpn_password_manager.Crypto
use vpn_password_manager.Crypto.{Primitives, open_sealed-seal, length-seal}
use vpn_password_manager.Keyring.{
  WrapperType, platform, phone, recovery, password, code, from_code, byte_at, same_wrapper, header,
  parse, params, seal, open_blob, magic, version,
}

from_code-code : (w : WrapperType) → from_code (code w) ≡ ok w
unfolding from_code code
from_code-code platform = refl
from_code-code phone = refl
from_code-code recovery = refl
from_code-code password = refl

same_wrapper_refl : (w : WrapperType) → same_wrapper w w ≡ true
unfolding same_wrapper
same_wrapper_refl platform = refl
same_wrapper_refl phone = refl
same_wrapper_refl recovery = refl
same_wrapper_refl password = refl

module _ (w : WrapperType) (ps nonce ct : Bytes) (short : length ps < 65536) where
  abbrev whole : Bytes
  whole = header w ps ++ (nonce ++ ct)

  length-header : length (header w ps) ≡ 8 + length ps
  unfolding header to_le
  length-header = ground arith

  length-whole : length whole ≡ 8 + length ps + length nonce + length ct
  length-whole =
      omega
        (arith, length-append (header w ps) (nonce ++ ct), length-append nonce ct, length-header)

  magic_field : take 4 whole ≡ magic
  unfolding header
  magic_field = refl

  version_field : byte_at 4 whole ≡ version
  unfolding header
  version_field = refl

  code_field : byte_at 5 whole ≡ code w
  unfolding header
  code_field = refl

  params_len_field : from_le (byte_at 6 whole ∷ byte_at 7 whole ∷ []) ≡ length ps
  unfolding header to_le from_le
  params_len_field = omega arith

  params_field : take (length ps) (drop 8 whole) ≡ ps
  unfolding header to_le
  params_field = take-append ps (nonce ++ ct) (length ps) refl

  nonce_field : length nonce ≡ 24 → take 24 (drop (8 + length ps) whole) ≡ nonce
  nonce_field n =
      rw (drop-append (header w ps) (nonce ++ ct) (8 + length ps) length-header)
        (take-append nonce ct 24 n)

  ct_field : length nonce ≡ 24 → drop (8 + length ps + 24) whole ≡ ct
  ct_field n = rw (← append_assoc) (
      drop-append (header w ps ++ nonce) ct (8 + length ps + 24)
        (omega (arith, length-append (header w ps) nonce, length-header)))

  parse-whole :
      length nonce ≡ 24
      → length ct ≡ 48
      → parse (record { wrapper = w; bytes = whole }) ≡ ok (ps, nonce, ct)
  unfolding parse
  parse-whole n m =
      rw
        (
          magic_field,
          version_field,
          code_field,
          from_code-code w,
          same_wrapper_refl w,
          params_len_field,
          params_field,
          nonce_field n,
          ct_field n,
        )
        (ground (arith, length-whole, text_eq_refl magic))

module _ (c : Primitives) (nonce kek ps vk : Bytes) (w : WrapperType) where
  abbrev sealed : Bytes
  sealed = Crypto.seal c kek (header w ps) nonce vk

  seal-parse :
      length ps < 65536
      → length nonce ≡ 24
      → length vk ≡ 32
      → parse (seal c nonce w kek ps vk) ≡ ok (ps, nonce, sealed)
  unfolding seal
  seal-parse short n k =
      parse-whole w ps nonce sealed short n
        (omega (arith, length-seal c kek (header w ps) nonce vk))

  -- For parameters shorter than 2 ^ 16 bytes, a 24-byte nonce and a 32-byte vault key: the sealed
  -- blob opens under the same key to the vault key, and shows its parameters without a key.
  pub open_blob-seal :
      length ps < 65536
      → length nonce ≡ 24
      → length vk ≡ 32
      → (open_blob c (seal c nonce w kek ps vk) kek ≡ ok vk)
        × (params (seal c nonce w kek ps vk) ≡ ok ps)
  unfolding open_blob params
  open_blob-seal short n k =
      let parsed = seal-parse short n k in
      let len : length (seal c nonce w kek ps vk).bytes ≡ 8 + length ps + 72 =
        unfold seal in
        omega (
          arith,
          length-whole w ps nonce sealed short,
          length-seal c kek (header w ps) nonce vk,
          n,
          k,
        ) in
      let front : take (8 + length ps) (seal c nonce w kek ps vk).bytes ≡ header w ps =
        unfold seal in
        take-append (header w ps) (nonce ++ sealed) (8 + length ps)
          (length-header w ps nonce sealed short) in
      let cut : length (seal c nonce w kek ps vk).bytes - 24 - 48 ≡ 8 + length ps =
        omega (arith, len) in
      (
        rw (parsed, cut, front, open_sealed-seal c kek (header w ps) nonce vk) (ground (arith, k)),
        rw parsed refl,
      )
