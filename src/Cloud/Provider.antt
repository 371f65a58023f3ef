-- ===== src/Cloud/Provider.antt =====
-- crates/core/src/cloud/provider.rs: instances, and what a provider offers. The provider is a
-- service: its operations are parameters over a world of any type, and each may fail.
use vpn_password_manager.Base.{Text, codes, Bool, true, false, List, Option}
use vpn_password_manager.Error.{CoreError, Result}

unfoldable pub ephemeral_tag : Text
ephemeral_tag = codes "sentinel-ephemeral"

pub data InstanceState : Type 0 where
  provisioning booting running stopped deleting gone : InstanceState

pub record Instance : Type 0 where
  pub id : Text
  pub region : Text
  pub instance_type : Text
  pub state : InstanceState
  pub ipv4 : Option Text
  pub tags : List Text

pub record InstanceSpec : Type 0 where
  pub region : Text
  pub instance_type : Text
  pub user_data : Text
  pub label : Text
  pub tags : List Text

pub record CloudProvider (W : Type 0) : Type 0 where
  pub create : InstanceSpec → W → Result CoreError Instance × W
  pub get : Text → W → Result CoreError Instance × W
  pub delete : Text → W → Result CoreError (Unit {0}) × W
  pub list_ephemeral : W → Result CoreError (List Instance) × W

unfoldable pub is_running : InstanceState → Bool
is_running running = true
is_running provisioning = false
is_running booting = false
is_running stopped = false
is_running deleting = false
is_running gone = false
