-- ===== src/Vault/Model.antt =====
-- crates/core/src/vault/model.rs: an item in plaintext. A `String` is its code points, an `i64` an
-- integer, an id the 16 bytes of the UUID.
use vpn_password_manager.Base.{ℕ, ℤ, Text, Bool, List, [], Option, none, some}
use vpn_password_manager.Base.Bytes.{Bytes}

pub data ItemType : Type 0 where
  login note card identity passkey : ItemType

pub data UrlMode : Type 0 where
  domain host : UrlMode

pub record UrlMatch : Type 0 where
  pub url : Text
  pub mode : UrlMode

pub record CustomField : Type 0 where
  pub name : Text
  pub value : Text
  pub secret : Bool

pub record Login : Type 0 where
  pub username : Option Text
  pub password : Option Text
  pub totp : Option Text

pub record Card : Type 0 where
  pub cardholder : Option Text
  pub number : Option Text
  pub brand : Option Text
  pub exp_month : Option ℕ
  pub exp_year : Option ℕ
  pub cvv : Option Text

pub record Identity : Type 0 where
  pub full_name : Option Text
  pub email : Option Text
  pub phone : Option Text
  pub address : Option Text

pub record Passkey : Type 0 where
  pub rp_id : Text
  pub rp_name : Option Text
  pub user_name : Text
  pub user_display_name : Option Text
  pub user_handle : Text
  pub credential_id : Text
  pub private_key : Text
  pub algorithm : ℤ
  pub sign_count : ℕ

pub record Item : Type 0 where
  pub id : Bytes
  pub item_type : ItemType
  pub title : Text
  pub tags : List Text
  pub urls : List UrlMatch
  pub notes : Option Text
  pub custom_fields : List CustomField
  pub login : Option Login
  pub card : Option Card
  pub identity : Option Identity
  pub passkey : Option Passkey
  pub created_at : ℤ
  pub updated_at : ℤ
  pub password_changed_at : Option ℤ

abbrev pub default_login : Login
default_login = record { username = none; password = none; totp = none }

-- The fresh random id is an argument.
unfoldable pub new_login : Bytes → Text → ℤ → Item
new_login id title now = record {
  id = id;
  item_type = ItemType.login;
  title = title;
  tags = [];
  urls = [];
  notes = none;
  custom_fields = [];
  login = some default_login;
  card = none;
  identity = none;
  passkey = none;
  created_at = now;
  updated_at = now;
  password_changed_at = some now;
}

unfoldable pub password : Item → Option Text
password it = elim it.login [ none ↦ none | some l ↦ l.password ]

unfoldable pub username : Item → Option Text
username it = elim it.login [ none ↦ none | some l ↦ l.username ]
