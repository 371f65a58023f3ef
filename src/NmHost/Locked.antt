-- ===== src/NmHost/Locked.antt =====
-- A host without a vault.
use vpn_password_manager.Base.{
  Bool, true, false, Option, none, some, ◌≡◌, refl, arith, Text, inl, inr,
}
use vpn_password_manager.Error.{Result-cases}
use vpn_password_manager.Nm.Protocol.{NmType, NmEnvelope, locked_reply}
use vpn_password_manager.Generator
use vpn_password_manager.Generator.{default_spec}
use vpn_password_manager.NmHost.Requests.{
  Reply, greeting, generated, Crates, Draw, Answer, ok_reply, error_reply,
}
use vpn_password_manager.NmHost.Logins.{search, fields, totp, generate}
use vpn_password_manager.NmHost.Saving.{save_candidate}
use vpn_password_manager.NmHost.Passkeys.{passkey_register, passkey_assert}
use vpn_password_manager.NmHost.Dispatch.{hello, unsupported, handle}

-- A payload that tells or confirms something of the vault.
abbrev pub is_of_vault : Option Reply → Bool
is_of_vault none = false
is_of_vault (some (greeting caps version locked)) = false
is_of_vault (some (generated p)) = false
is_of_vault (some other) = true

module _ {Value : Type 0} (k : Crates Value) (d : Draw) where
  -- The answer to a kind of request.
  abbrev Harmless : NmEnvelope Value → Type 0
  Harmless env =
      (answer : Answer) × (handle k d none env ≡ some (none, answer))
      × (is_of_vault answer.payload ≡ false)

  generate_harmless : (id : Text) → is_of_vault (generate k id).payload ≡ false
  unfolding generate ok_reply error_reply
  generate_harmless id = elim (Result-cases (Generator.password k.rng default_spec)) [
    | inl (e, p) ↦ ground (arith, p)
    | inr (w, p) ↦ ground (arith, p)
  ]

  locked_kind : (env : NmEnvelope Value) (kind : NmType) → env.kind ≡ kind → Harmless env
  unfolding handle hello search fields totp save_candidate passkey_register passkey_assert
      locked_reply ok_reply error_reply
  locked_kind env NmType.hello e = (hello k none env.id, ground (arith, e), refl)
  locked_kind env NmType.vault_generate e =
      (generate k env.id, ground (arith, e), generate_harmless env.id)
  locked_kind env NmType.vault_search e = (locked_reply env.id, ground (arith, e), refl)
  locked_kind env NmType.vault_fields_get e = (locked_reply env.id, ground (arith, e), refl)
  locked_kind env NmType.vault_totp_get e = (locked_reply env.id, ground (arith, e), refl)
  locked_kind env NmType.vault_save_candidate e = (locked_reply env.id, ground (arith, e), refl)
  locked_kind env NmType.vault_passkey_register e = (locked_reply env.id, ground (arith, e), refl)
  locked_kind env NmType.vault_passkey_assert e = (locked_reply env.id, ground (arith, e), refl)
  locked_kind env NmType.status_subscribe e = (unsupported k env, ground (arith, e), refl)
  locked_kind env NmType.status_event e = (unsupported k env, ground (arith, e), refl)
  locked_kind env NmType.lock_event e = (unsupported k env, ground (arith, e), refl)

  -- A host without a vault answers every request, never panics, stays without a vault, and no
  -- answer tells anything of a vault: it greets, generates a password, or has no payload.
  pub handle_locked : (env : NmEnvelope Value) → Harmless env
  handle_locked env = locked_kind env env.kind refl
