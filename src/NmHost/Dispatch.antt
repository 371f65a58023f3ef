-- ===== src/NmHost/Dispatch.antt =====
-- The greeting, and the handler of every request.
use vpn_password_manager.Base.{Text, codes, true, false, List, [], ◌∷◌, Option, none, some}
use vpn_password_manager.Nm.Protocol.{NmType, NmErrorCode, NmEnvelope}
use vpn_password_manager.NmHost.Requests.{
  greeting, Crates, Host, Draw, Answer, ok_reply, error_reply,
}
use vpn_password_manager.NmHost.Logins.{search, fields, totp, generate}
use vpn_password_manager.NmHost.Saving.{save_candidate}
use vpn_password_manager.NmHost.Passkeys.{passkey_register, passkey_assert}

abbrev pub caps : List Text
caps =
    codes "vault.search"
    ∷ codes "vault.fields.get"
    ∷ codes "vault.totp.get"
    ∷ codes "vault.generate"
    ∷ codes "vault.save_candidate"
    ∷ codes "vault.passkey.register"
    ∷ codes "vault.passkey.assert"
    ∷ []

module _ {Value : Type 0} (k : Crates Value) where
  unfoldable pub hello : Option Host → Text → Answer
  hello none id = ok_reply id NmType.hello (greeting caps k.app_version true)
  hello (some host) id = ok_reply id NmType.hello (greeting caps k.app_version false)

  -- An answer that leaves the host as it is, if there is one.
  abbrev unchanged : Option Host → Option Answer → Option (Option Host × Answer)
  unchanged host none = none
  unchanged host (some answer) = some (host, answer)

  abbrev pub unsupported : NmEnvelope Value → Answer
  unsupported env =
      error_reply env.id env.kind NmErrorCode.bad_request (codes "unsupported request")

  -- None where a one-time password panics.
  unfoldable pub handle : Draw → Option Host → NmEnvelope Value → Option (Option Host × Answer)
  unfolding hello
  handle d host env = elim env.kind [
    | NmType.hello ↦ some (host, hello host env.id)
    | NmType.vault_search ↦ some (host, search k host env)
    | NmType.vault_fields_get ↦ unchanged host (fields k d host env)
    | NmType.vault_totp_get ↦ unchanged host (totp k d host env)
    | NmType.vault_generate ↦ some (host, generate k env.id)
    | NmType.vault_save_candidate ↦ some (save_candidate k d host env)
    | NmType.vault_passkey_register ↦ some (passkey_register k d host env)
    | NmType.vault_passkey_assert ↦ some (passkey_assert k d host env)
    | _ ↦ some (host, unsupported env)
  ]
