-- ===== src/Nm/Framing.antt =====
-- crates/core/src/nm/framing.rs: a length as a little-endian u32, then the JSON text.
pub mod RoundTrip
use vpn_password_manager.Base.{
  ℕ, ◌+◌, ◌*◌, ◌%◌, ◌^◌, Bool, List, [], ◌∷◌, ◌++◌, Option, none, some, length, take, drop, ltb,
  if◌then◌else◌,
}
use vpn_password_manager.Base.Bytes.{Bytes, to_le, from_le}
use vpn_password_manager.Error.{Result, ok, err}
use vpn_password_manager.Nm.Protocol.{NmEnvelope}

abbrev pub max_message_bytes : ℕ
max_message_bytes = 1024 * 1024

pub data FrameError : Type 0 where
  incomplete : FrameError
  too_large : ℕ → FrameError
  malformed : FrameError

-- What the code takes of `serde_json` for an envelope; the serialisation cannot fail.
pub record EnvelopeJson (Value : Type 0) : Type 0 where
  pub to_vec : NmEnvelope Value → Bytes
  pub from_slice : Bytes → Option (NmEnvelope Value)

module _ {Value : Type 0} (json : EnvelopeJson Value) where
  unfoldable pub encode_frame : NmEnvelope Value → Bytes
  encode_frame env = let body = json.to_vec env in to_le 4 (length body % 2 ^ 32) ++ body

  unfoldable pub decode_frame : Bytes → Result FrameError (NmEnvelope Value × ℕ)
  decode_frame buf =
      let len = from_le (take 4 buf) in
      if ltb (length buf) 4
      then err incomplete
      else if ltb max_message_bytes len
      then err (too_large len)
      else if ltb (length buf) (4 + len)
      then err incomplete
      else elim (json.from_slice (take len (drop 4 buf))) [
        | none ↦ err malformed
        | some env ↦ ok (env, 4 + len)
      ]
