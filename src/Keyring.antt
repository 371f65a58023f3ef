-- ===== src/Keyring.antt =====
-- crates/core/src/keyring/mod.rs: the vault key, wrapped. A blob is magic (4) | version (1) |
-- wrapper type (1) | length of the parameters, a little-endian u16 (2) | parameters | nonce (24) |
-- ciphertext (48), where all before the nonce is the associated data.
pub mod RoundTrip
pub mod Canonical
mod Tests
use vpn_password_manager.Base.{
  ℕ, zero, suc, ◌+◌, ◌-◌, ◌%◌, ◌^◌, ◌==◌, not, codes, text_eq, Bool, true, false, List, [], ◌∷◌,
  ◌++◌, length, take, drop, ltb,
}
use vpn_password_manager.Base.Bytes.{Bytes, to_le, from_le}
use vpn_password_manager.Error.{CoreError, Result, ok, err, format, ◌>>=◌, ◌>>◌, require}
use vpn_password_manager.Crypto
use vpn_password_manager.Crypto.{Primitives}

abbrev pub magic : Bytes
magic = codes "SNTL"

abbrev pub version : ℕ
version = 0x01

pub data WrapperType : Type 0 where
  platform phone recovery password : WrapperType

unfoldable pub code : WrapperType → ℕ
code platform = 1
code phone = 2
code recovery = 3
code password = 4

unfoldable pub from_code : ℕ → Result CoreError WrapperType
from_code (suc zero) = ok platform
from_code (suc (suc zero)) = ok phone
from_code (suc (suc (suc zero))) = ok recovery
from_code (suc (suc (suc (suc zero)))) = ok password
from_code _ = err (format "wrapped blob")

-- The derived equality.
unfoldable pub same_wrapper : WrapperType → WrapperType → Bool
same_wrapper platform platform = true
same_wrapper phone phone = true
same_wrapper recovery recovery = true
same_wrapper password password = true
same_wrapper _ _ = false

pub record WrappedBlob : Type 0 where
  pub wrapper : WrapperType
  pub bytes : Bytes

-- `b[i]`, where the checks before it leave an element there.
abbrev pub byte_at : ℕ → Bytes → ℕ
byte_at i [] = 0
byte_at zero (b ∷ bs) = b
byte_at (suc i) (b ∷ bs) = byte_at i bs

unfoldable pub header : WrapperType → Bytes → Bytes
header wrapper params =
    magic ++ (version ∷ code wrapper ∷ (to_le 2 (length params % 2 ^ 16) ++ params))

-- Parameters, nonce and ciphertext.
unfoldable pub parse : WrappedBlob → Result CoreError (Bytes × Bytes × Bytes)
parse blob = do
  let b = blob.bytes
  require (not (ltb (length b) 8)) (format "wrapped blob")
  require (text_eq (take 4 b) magic) (format "wrapped blob")
  require (byte_at 4 b == version) (format "wrapped blob")
  wt ← from_code (byte_at 5 b)
  require (same_wrapper wt blob.wrapper) (format "wrapped blob")
  let params_len = from_le (byte_at 6 b ∷ byte_at 7 b ∷ [])
  let header_end = 8 + params_len
  require (length b == header_end + 24 + 48) (format "wrapped blob")
  ok (take params_len (drop 8 b), take 24 (drop header_end b), drop (header_end + 24) b)

unfoldable pub params : WrappedBlob → Result CoreError Bytes
params blob = do p ← parse blob; ok p.0

module _ (c : Primitives) where
  -- The nonce that `crypto::seal` draws is an argument.
  unfoldable pub seal : Bytes → WrapperType → Bytes → Bytes → Bytes → WrappedBlob
  seal nonce wrapper kek params vk =
      let h = header wrapper params in
      record { wrapper = wrapper; bytes = h ++ (nonce ++ Crypto.seal c kek h nonce vk) }

  unfoldable pub open_blob : WrappedBlob → Bytes → Result CoreError Bytes
  open_blob blob kek = do
    p ← parse blob
    let header_end = length blob.bytes - 24 - 48
    pt ← Crypto.open_sealed c kek (take header_end blob.bytes) p.1 p.2
    require (length pt == 32) (format "wrapped blob")
    ok pt
