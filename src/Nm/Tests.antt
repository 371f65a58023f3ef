-- ===== src/Nm/Tests.antt =====
-- The theorems on frames at an envelope whose text has three bytes.
use vpn_password_manager.Base.{
  ℕ, ◌≤◌, ◌+◌, codes, List, [], ◌∷◌, ◌++◌, Option, some, ◌≡◌, refl, arith, length, take, drop,
}
use vpn_password_manager.Base.Bytes.{Bytes, to_le}
use vpn_password_manager.Error.{ok}
use vpn_password_manager.Nm.Protocol.{NmEnvelope, locked_reply}
use vpn_password_manager.Nm.Framing.{EnvelopeJson, encode_frame, decode_frame, max_message_bytes}
use vpn_password_manager.Nm.Framing.RoundTrip.{decode_frame-encode_frame, decode_frame_lem}

abbrev env : NmEnvelope (Unit {0})
env = locked_reply (codes "7")

abbrev json : EnvelopeJson (Unit {0})
json = record { to_vec = λ e. 123 ∷ 1 ∷ 125 ∷ []; from_slice = λ b. some env }

decode_frame-encode_frame_example :
    decode_frame json (encode_frame json env ++ (9 ∷ [])) ≡ ok (env, length (encode_frame json env))
decode_frame-encode_frame_example = decode_frame-encode_frame json env (9 ∷ []) (omega arith) refl

abbrev frame : Bytes
frame = 3 ∷ 0 ∷ 0 ∷ 0 ∷ 123 ∷ 1 ∷ 125 ∷ 9 ∷ []

frame_decoded : decode_frame json frame ≡ ok (env, 7)
unfolding decode_frame vpn_password_manager.Base.Bytes.from_le
frame_decoded = refl

decode_frame_lem_example :
    (4 ≤ 7)
    × (7 ≤ 4 + max_message_bytes)
    × (7 ≤ length frame)
    × (json.from_slice (drop 4 (take 7 frame)) ≡ some env)
decode_frame_lem_example = decode_frame_lem json frame env 7 frame_decoded
