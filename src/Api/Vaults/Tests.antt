-- ===== src/Api/Vaults/Tests.antt =====
-- The theorems on the documents of the accounts at a table of one account with two devices.
use vpn_password_manager.Base.{ℕ, ◌+◌, ℤ, pos, Text, codes, List, [], ◌∷◌, ◌++◌, some, ◌≡◌, refl}
use vpn_password_manager.Base.Bytes.{Bytes}
use vpn_password_manager.Error.{ok}
use vpn_password_manager.Vault.Samples.{tag, same_text}
use vpn_password_manager.Api.Vaults.{Auth, Db, Request, put_row, vault_put, handle_puts}
use vpn_password_manager.Api.Vaults.Versions.{version_at, Accepted, vault_put-Accepted}
use vpn_password_manager.Api.Vaults.Serial.{versions, CountsUp, handle_puts-CountsUp}

abbrev phone : Auth
phone = record { account = codes "me"; device = codes "phone" }

abbrev desktop : Auth
desktop = record { account = codes "me"; device = codes "desktop" }

abbrev blob : ℕ → Bytes
blob n = n ∷ (tag ++ tag)

abbrev db : Db
db = record {
  devices = (codes "phone", codes "approved") ∷ (codes "desktop", codes "approved") ∷ [];
  vaults =
      (codes "me", record { version = 3; ciphertext = blob 0; updated_by = codes "phone" }) ∷ [];
}

put : vault_put same_text db phone (some (pos 3)) (blob 1) ≡ (put_row db phone 4 (blob 1), ok 4)
unfolding vault_put vpn_password_manager.Base.Assoc.lookup vpn_password_manager.Base.text_eq
put = refl

vault_put-Accepted_example :
    Accepted same_text db phone (some (pos 3)) (blob 1) (put_row db phone 4 (blob 1)) 4
vault_put-Accepted_example =
    vault_put-Accepted same_text db (put_row db phone 4 (blob 1)) phone (some (pos 3)) (blob 1) 4
      put

-- The desktop's put names a version that is gone.
abbrev requests : List Request
requests =
    record { auth = phone; if_match = some (pos 3); ciphertext_b64 = blob 1 }
    ∷ record { auth = desktop; if_match = some (pos 3); ciphertext_b64 = blob 2 }
    ∷ record { auth = phone; if_match = some (pos 4); ciphertext_b64 = blob 3 }
    ∷ []

two_accepted : versions same_text (codes "me") (handle_puts same_text requests db).1 ≡ 4 ∷ 5 ∷ []
unfolding versions handle_puts vpn_password_manager.Base.text_eq
    vpn_password_manager.Api.Vaults.handle_put vpn_password_manager.Base.Assoc.lookup
    vpn_password_manager.Base.Assoc.insert
two_accepted = refl

handle_puts-CountsUp_example :
    CountsUp
      (version_at (codes "me") db)
      (versions same_text (codes "me") (handle_puts same_text requests db).1)
      (version_at (codes "me") (handle_puts same_text requests db).0)
handle_puts-CountsUp_example = handle_puts-CountsUp same_text (codes "me") requests db
