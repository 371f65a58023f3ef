-- ===== src/NmHost/Payloads.antt =====
-- The payload of an answer, over all kinds of request.
use vpn_password_manager.Base.{Option, some, ◌≡◌, refl, arith}
use vpn_password_manager.Nm.Protocol.{NmType, NmEnvelope}
use vpn_password_manager.NmHost.Requests.{Reply, Crates, Host, Draw, Answer, error_reply}
use vpn_password_manager.NmHost.Passkeys.{}
use vpn_password_manager.NmHost.Dispatch.{handle}
use vpn_password_manager.NmHost.Answers.{
  answers, Fits, Fits-payload, search-Fits, fields-Fits, totp-Fits, generate-Fits, hello-Fits,
  save_candidate-Fits, passkey_register-Fits, passkey_assert-Fits,
}

module _ {Value : Type 0} (k : Crates Value) (d : Draw) where
  handle-Fits :
      (host after : Option Host) (env : NmEnvelope Value) (answer : Answer) (kind : NmType)
      → env.kind ≡ kind
      → handle k d host env ≡ some (after, answer)
      → Fits kind answer.payload
  unfolding handle error_reply
  handle-Fits host after env answer NmType.hello e h =
      ground (arith, e, h, hello-Fits k d host env.id)
  handle-Fits host after env answer NmType.vault_search e h =
      ground (arith, e, h, search-Fits k d host env)
  handle-Fits host after env answer NmType.vault_fields_get e h =
      ground (arith, e, h, fields-Fits k d host env)
  handle-Fits host after env answer NmType.vault_totp_get e h =
      ground (arith, e, h, totp-Fits k d host env)
  handle-Fits host after env answer NmType.vault_generate e h =
      ground (arith, e, h, generate-Fits k d env.id)
  handle-Fits host after env answer NmType.vault_save_candidate e h =
      ground (arith, e, h, save_candidate-Fits k d host env)
  handle-Fits host after env answer NmType.vault_passkey_register e h =
      ground (arith, e, h, passkey_register-Fits k d host env)
  handle-Fits host after env answer NmType.vault_passkey_assert e h =
      ground (arith, e, h, passkey_assert-Fits k d host env)
  handle-Fits host after env answer NmType.status_subscribe e h = ground (arith, e, h)
  handle-Fits host after env answer NmType.status_event e h = ground (arith, e, h)
  handle-Fits host after env answer NmType.lock_event e h = ground (arith, e, h)

  -- If an answer has a payload, it is of the kind that answers the kind of the request.
  pub handle_payload :
      (host after : Option Host) (env : NmEnvelope Value) (answer : Answer) (r : Reply)
      → handle k d host env ≡ some (after, answer)
      → answer.payload ≡ some r
      → answers r ≡ env.kind
  handle_payload host after env answer r h p =
      Fits-payload env.kind answer.payload r (handle-Fits host after env answer env.kind refl h) p
