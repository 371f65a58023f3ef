-- ===== src/NmHost/Tests.antt =====
-- The theorems on the native-messaging host at an empty vault and one page.
use vpn_password_manager.Base.{
  ℕ, zero, suc, ◌+◌, ap, pos, Text, codes, Bool, true, false, List, [], ◌∷◌, Option, none, some,
  ◌≡◌, refl, arith, length, is_empty,
}
use vpn_password_manager.Base.Assoc.{Assoc}
use vpn_password_manager.Base.Bytes.{Bytes}
use vpn_password_manager.Error.{ok}
use vpn_password_manager.Vault.Model.{Item, Passkey}
use vpn_password_manager.Vault.Envelope.{ItemJson}
use vpn_password_manager.Vault.Session.{ParsedUrl, Origin, unlocked, key, parse_origin}
use vpn_password_manager.Vault.Store.{Row, LocalVault, empty_vault}
use vpn_password_manager.Vault.Samples.{bank_id, vault_key, env_at}
use vpn_password_manager.Nm.Protocol.{NmType}
use vpn_password_manager.NmHost.Requests.{
  SaveCandidateRequest, PasskeyRegisterReq, Reply, found_fields, saved, registered, Crates, Host,
  Draw, Answer, ok_reply, load_items,
}
use vpn_password_manager.NmHost.Saving.{created_login, find, is_same_login}
use vpn_password_manager.NmHost.Dispatch.{handle}
use vpn_password_manager.NmHost.Locked.{is_of_vault, handle_locked}
use vpn_password_manager.NmHost.Payloads.{handle_payload}
use vpn_password_manager.NmHost.Answers.{answers}
use vpn_password_manager.NmHost.Release.{FieldsTold, handle_fields}
use vpn_password_manager.NmHost.Saved.{save_candidate-fields}
use vpn_password_manager.NmHost.Scope.{ForScope, handle_passkey}
use vpn_password_manager.NmHost.Samples.{origin, one_page, to_save, draw, crates, empty, request}

handle_locked_example :
    (answer : Answer) × (handle crates draw none (request NmType.vault_fields_get)
      ≡ some (none, answer))
    × (is_of_vault answer.payload ≡ false)
handle_locked_example = handle_locked crates draw (request NmType.vault_fields_get)

abbrev page : Origin
page = record { scheme = codes "https"; host = codes "bank.example"; port = none }

key_ok : key empty.session ≡ ok vault_key
unfolding key unlocked
key_ok = refl

nothing_saved : find (is_same_login crates to_save) (load_items crates empty) ≡ none
unfolding find load_items vpn_password_manager.Vault.Store.list_envelopes
    vpn_password_manager.Vault.Store.newest_first
nothing_saved = refl

back : crates.item_json.from_slice (7 ∷ 7 ∷ []) ≡ some (created_login crates draw to_save)
unfolding created_login vpn_password_manager.Base.Format.trim
back = refl

parsed : parse_origin one_page origin ≡ some page
unfolding parse_origin vpn_password_manager.Vault.Session.to_ascii_lowercase
parsed = refl

save_candidate-fields_example :
    (after : Host) × (handle crates draw (some empty) (request NmType.vault_save_candidate)
      ≡ some (
        some after,
        ok_reply (codes "1") NmType.vault_save_candidate (saved (codes "created") bank_id),
      ))
    × (handle crates draw (some after) (request NmType.vault_fields_get)
        ≡ some (
          some after,
          ok_reply
              (codes "1")
              NmType.vault_fields_get
              (found_fields ((codes "password", codes "pw") ∷ [])),
        ))
save_candidate-fields_example =
    save_candidate-fields crates draw draw empty vault_key (request NmType.vault_save_candidate)
      (request NmType.vault_fields_get) to_save [] page (7 ∷ 7 ∷ []) key_ok refl refl refl
      nothing_saved refl refl (omega arith) refl refl back parsed refl refl

abbrev one_login : Host
one_login = record {
  session = unlocked vault_key;
  vault = record {
    items = (bank_id, record { envelope = env_at 5; updated_at = pos 5 }) ∷ [];
    tombstones = [];
  };
}

abbrev the_password : Assoc Text
the_password = (codes "password", codes "pw") ∷ []

told :
    handle crates draw (some one_login) (request NmType.vault_fields_get)
    ≡ some
        (some one_login, ok_reply (codes "1") NmType.vault_fields_get (found_fields the_password))
unfolding handle vpn_password_manager.NmHost.Logins.fields
    vpn_password_manager.NmHost.Requests.lookup_item vpn_password_manager.Vault.Store.get
    vpn_password_manager.Base.Assoc.lookup vpn_password_manager.Base.text_eq
    vpn_password_manager.Vault.Session.open_envelope key unlocked
    vpn_password_manager.Vault.Envelope.open_item vpn_password_manager.Crypto.open_sealed
    vpn_password_manager.Vault.Session.origin_matches parse_origin
    vpn_password_manager.Vault.Session.url_matches vpn_password_manager.Vault.Session.rules_allow
    vpn_password_manager.Vault.Session.hosts_match
    vpn_password_manager.Vault.Session.registrable_domain
    vpn_password_manager.Vault.Session.registrable_of
    vpn_password_manager.Vault.Session.two_label_suffixes
    vpn_password_manager.Vault.Session.to_ascii_lowercase vpn_password_manager.Vault.Session.split
    vpn_password_manager.NmHost.Logins.add_fields vpn_password_manager.Base.Assoc.insert
    vpn_password_manager.Vault.Model.password ok_reply
told = refl

handle_fields_example :
    FieldsTold crates draw one_login (request NmType.vault_fields_get) the_password
    × (◌≡◌ {A = Option Host} (some one_login) (some one_login))
unfolding ok_reply
handle_fields_example =
    handle_fields crates draw one_login (some one_login) (request NmType.vault_fields_get)
      (ok_reply (codes "1") NmType.vault_fields_get (found_fields the_password)) the_password told
      refl

abbrev registered_c : Answer
registered_c =
    ok_reply (codes "1") NmType.vault_passkey_register (registered (codes "c") (2 ∷ []) (1 ∷ []))

registers :
    handle crates draw (some empty) (request NmType.vault_passkey_register)
    ≡ some (some one_login, registered_c)
unfolding handle vpn_password_manager.NmHost.Passkeys.passkey_register
    vpn_password_manager.NmHost.Passkeys.rp_id_matches_origin
    vpn_password_manager.NmHost.Requests.split_scheme vpn_password_manager.Base.text_eq
    vpn_password_manager.Vault.Session.to_ascii_lowercase vpn_password_manager.Vault.Session.split
    vpn_password_manager.NmHost.Saving.store_item ok_reply vpn_password_manager.Vault.Session.seal
    key unlocked vpn_password_manager.Vault.Envelope.seal_item
    vpn_password_manager.Vault.Store.upsert vpn_password_manager.Vault.Envelope.envelope_meta
    vpn_password_manager.Vault.Envelope.header vpn_password_manager.Base.Bytes.i64_to_le
    vpn_password_manager.Base.Bytes.i64_bits vpn_password_manager.Base.Bytes.to_le
    vpn_password_manager.Base.Bytes.from_le vpn_password_manager.Base.Bytes.i64_from_le
    vpn_password_manager.Base.Bytes.i64_of_bits vpn_password_manager.Base.Assoc.insert
    vpn_password_manager.Base.Assoc.remove vpn_password_manager.Crypto.seal
    vpn_password_manager.NmHost.Passkeys.passkey_item vpn_password_manager.Vault.Model.new_login
registers = refl

handle_passkey_example : ForScope crates draw empty (request NmType.vault_passkey_register)
unfolding ok_reply
handle_passkey_example =
    handle_passkey crates draw empty (some one_login) (request NmType.vault_passkey_register)
      registered_c (registered (codes "c") (2 ∷ []) (1 ∷ [])) registers refl refl

handle_payload_example :
    answers (registered (codes "c") (2 ∷ []) (1 ∷ [])) ≡ NmType.vault_passkey_register
unfolding ok_reply
handle_payload_example =
    handle_payload crates draw (some empty) (some one_login) (request NmType.vault_passkey_register)
      registered_c (registered (codes "c") (2 ∷ []) (1 ∷ [])) registers refl
