-- ===== src/Nm/Protocol.antt =====
-- crates/core/src/nm/protocol.rs: the envelope. A payload is a value of the JSON crate, a parameter.
use vpn_password_manager.Base.{Text, codes, Bool, false, Option, none, some}

pub data NmType : Type 0 where
  hello status_subscribe status_event : NmType
  vault_search vault_fields_get vault_totp_get vault_generate vault_save_candidate : NmType
  vault_passkey_register vault_passkey_assert lock_event : NmType

pub data NmErrorCode : Type 0 where
  locked bad_origin not_found bad_request internal : NmErrorCode

pub record NmError : Type 0 where
  pub code : NmErrorCode
  pub message : Text

pub record NmEnvelope (Value : Type 0) : Type 0 where
  pub id : Text
  pub kind : NmType
  pub is_ok : Option Bool
  pub payload : Option Value
  pub error : Option NmError

-- `NmEnvelope::locked`.
unfoldable pub locked_reply : {Value : Type 0} → Text → NmEnvelope Value
locked_reply id = record {
  id = id;
  kind = lock_event;
  is_ok = some false;
  payload = none;
  error = some (record { code = NmErrorCode.locked; message = codes "vault is locked" });
}
