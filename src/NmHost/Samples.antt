-- ===== src/NmHost/Samples.antt =====
-- A page, a login, and a host whose parameters are concrete functions, for the tests.
use vpn_password_manager.Base.{
  ℕ, zero, suc, ap, pos, Text, codes, Bool, [], ◌∷◌, Option, none, some, ◌≡◌, refl, length,
}
use vpn_password_manager.Vault.Model.{Item, Passkey}
use vpn_password_manager.Vault.Envelope.{ItemJson}
use vpn_password_manager.Vault.Session.{ParsedUrl, unlocked}
use vpn_password_manager.Vault.Store.{empty_vault}
use vpn_password_manager.Vault.Samples.{plain, bank_id, nonce, vault_key}
use vpn_password_manager.Nm.Protocol.{NmType, NmEnvelope}
use vpn_password_manager.Generator.{Rng}
use vpn_password_manager.Totp.Secret.{Hmac, digest_size, repeat_char}
use vpn_password_manager.NmHost.Requests.{
  SaveCandidateRequest, PasskeyRegisterReq, Crates, Host, Draw,
}
use vpn_password_manager.NmHost.Saved.{password_of}

abbrev pub origin : Text
origin = codes "https://bank.example"

abbrev pub one_page : Text → Option ParsedUrl
one_page url =
    some (record { scheme = codes "https"; host_str = some (codes "bank.example"); port = none })

abbrev pub to_save : SaveCandidateRequest
to_save = record {
  origin = origin;
  username = codes "me";
  password = codes "pw";
  title = codes "Bank";
}

abbrev pub to_register : PasskeyRegisterReq
to_register = record {
  origin = origin;
  rp_id = codes "example";
  rp_name = none;
  user_name = codes "me";
  user_display_name = none;
  user_handle_b64u = [];
}

abbrev pub draw : Draw
draw = record { now = pos 5; nonce = nonce; id = bank_id }

abbrev pub passkey : Passkey
passkey = record {
  rp_id = codes "example";
  rp_name = none;
  user_name = codes "me";
  user_display_name = none;
  user_handle = [];
  credential_id = codes "c";
  private_key = [];
  algorithm = pos 7;
  sign_count = 0;
}

abbrev pub bank_login : Item
bank_login = record {
  id = bank_id;
  item_type = vpn_password_manager.Vault.Model.ItemType.login;
  title = codes "Bank";
  tags = [];
  urls = record { url = origin; mode = vpn_password_manager.Vault.Model.UrlMode.domain } ∷ [];
  notes = none;
  custom_fields = [];
  login = some (record { username = some (codes "me"); password = some (codes "pw"); totp = none });
  card = none;
  identity = none;
  passkey = none;
  created_at = pos 5;
  updated_at = pos 5;
  password_changed_at = some (pos 5);
}

abbrev pub login_json : ItemJson
login_json = record { to_vec = λ it. some (7 ∷ 7 ∷ []); from_slice = λ b. some bank_login }

pub length-repeat_char : (n c : ℕ) → length (repeat_char n c) ≡ n
unfolding repeat_char
length-repeat_char zero c = refl
length-repeat_char (suc n) c = ap suc (length-repeat_char n c)

abbrev pub zeros : Hmac
zeros = record {
  digest = λ algo key msg. repeat_char (digest_size algo) 0;
  length_digest = λ algo key msg. length-repeat_char (digest_size algo) 0;
}

abbrev pub first_drawn : Rng
first_drawn = record {
  gen_range = λ draw bound. 0;
  shuffle = λ s. s;
  gen_range_lt = λ draw bound h. h;
  length_shuffle = λ s. refl;
  in_shuffle = λ c s. (λ i. i, λ i. i);
}

-- Every payload reads as the same requests.
abbrev pub crates : Crates Bool
crates = record {
  cipher = plain;
  item_json = login_json;
  url_parse = one_page;
  uuid_parse = λ t. some t;
  uuid_text = λ b. b;
  to_lowercase = λ t. t;
  otp_url = λ t. none;
  hmac = zeros;
  rng = first_drawn;
  app_version = codes "1";
  url_safe_encode = λ b. b;
  url_safe_decode = λ t. some t;
  to_search = λ v. none;
  to_fields = λ v. some (password_of bank_id origin []);
  to_totp = λ v. none;
  to_save = λ v. some to_save;
  to_register = λ v. some to_register;
  to_assert = λ v. none;
  mint_passkey = λ rp name user display handle. passkey;
  registration_attestation = λ pk. some (1 ∷ [], 2 ∷ []);
  assertion = λ pk n client. none;
}

abbrev pub empty : Host
empty = record { session = unlocked vault_key; vault = empty_vault }

abbrev pub request : NmType → NmEnvelope Bool
request kind = record { id = codes "1"; kind = kind; is_ok = none; payload = none; error = none }
