-- ===== src/Vpn/Session.antt =====
-- crates/core/src/vpn/session.rs: the connect state machine and the disconnect. The key pairs and
-- the random bytes that an attempt draws are arguments; the pauses between polls are left out.
pub mod Cleanup
use vpn_password_manager.Base.{
  ℕ, zero, suc, ◌+◌, ◌-◌, ◌/◌, ◌%◌, String, Text, codes, Bool, List, [], ◌∷◌, ◌++◌, Option, none,
  some, not, ltb, if◌then◌else◌,
}
use vpn_password_manager.Base.Bytes.{Bytes}
use vpn_password_manager.Error.{CoreError, Result, ok, err, provision, ok_or}
use vpn_password_manager.Cloud.Provider.{Instance, InstanceSpec, is_running}
use vpn_password_manager.Wg.{ClientConf, render_client_conf}
use vpn_password_manager.Vpn.Effects.{
  ConnectState, idle, creating_instance, booting, exchanging_keys, starting_tunnel, connected,
  disconnecting, destroying, failed, CloudInitParams, ConnectDeps, State, M, ◌>>=◌, ◌>>◌, lift,
  call, ignore, emit, create_instance, set_created, delete_instance,
}

pub record WgKeypair : Type 0 where
  pub private_base64 : Text
  pub public_base64 : Text

-- What an attempt draws at random.
pub record Draws : Type 0 where
  pub client_kp : WgKeypair
  pub server_kp : WgKeypair
  pub token_b : Bytes
  pub hmac_b : Bytes

pub record Connection : Type 0 where
  pub instance_ : Instance
  pub client_conf : Text

hex_digit : ℕ → ℕ
hex_digit n = if ltb n 10 then b'0' + n else b'a' + (n - 10)

unfoldable pub hex : Bytes → Text
unfolding hex_digit
hex [] = []
hex (b ∷ bs) = hex_digit (b / 16) ∷ hex_digit (b % 16) ∷ hex bs

unfoldable pub stage_of : CoreError → String
stage_of (provision stage) = stage
stage_of _ = "connect"

unfoldable pub client_conf_for : Draws → Text → List Text → ClientConf
client_conf_for d ip allowed_ips = record {
  client_private_key = d.client_kp.private_base64;
  client_address = codes "10.66.0.2/32";
  dns = codes "1.1.1.1";
  server_public_key = d.server_kp.public_base64;
  server_endpoint = ip ++ codes ":51820";
  allowed_ips = allowed_ips;
  keepalive = 25;
}

-- No tags: the provider stamps the ephemeral tag, and the sweep manages the node.
unfoldable pub spec_for : Text → Text → Text → InstanceSpec
spec_for region instance_type user_data = record {
  region = region;
  instance_type = instance_type;
  user_data = user_data;
  label = codes "sentinel-" ++ region;
  tags = [];
}

module _ {W : Type 0} (deps : ConnectDeps W) where
  -- The boot loop: at most this many polls, until the instance runs.
  unfoldable pub wait_for_boot : ℕ → Text → Instance → M W Instance
  wait_for_boot zero id running = lift (ok running)
  wait_for_boot (suc polls) id running = do
    cur ← call (deps.cloud.get id)
    let again = wait_for_boot polls id running
    if is_running cur.state then lift (ok cur) else again

  -- Steps 3 to 5, once the instance is created.
  unfoldable pub bring_up : Draws → List Text → Instance → M W Connection
  bring_up d allowed_ips instance_ = do
    emit booting
    running ← wait_for_boot deps.max_boot_polls instance_.id instance_
    if not (is_running running.state) then lift (err (provision "boot")) else do
      ip ← lift (ok_or running.ipv4 (provision "boot"))
      emit exchanging_keys
      _ready ← call (deps.fetch ip (hex d.token_b) (hex d.hmac_b))
      emit starting_tunnel
      let conf = client_conf_for d ip allowed_ips
      call (deps.up conf)
      emit (connected running.id running.ipv4)
      lift (ok (record { instance_ = running; client_conf = render_client_conf conf }))

  unfoldable pub cloud_init_params : Draws → CloudInitParams
  cloud_init_params d = record {
    server_private_key = d.server_kp.private_base64;
    client_public_key = d.client_kp.public_base64;
    callback_token = hex d.token_b;
    callback_hmac_key = hex d.hmac_b;
  }

  unfoldable pub connect_inner : Draws → Text → Text → List Text → M W Connection
  connect_inner d region instance_type allowed_ips = do
    cloud_init ← lift (deps.render_base64 (cloud_init_params d))
    emit creating_instance
    instance_ ← create_instance deps.cloud (spec_for region instance_type cloud_init)
    set_created instance_.id
    bring_up d allowed_ips instance_

  -- What follows a failed attempt.
  unfoldable pub destroy_created : Option Text → M W (Unit {0})
  destroy_created none = lift (ok tt)
  destroy_created (some id) = do emit destroying; ignore (delete_instance deps.cloud id)

  unfoldable pub conclude :
      Result CoreError Connection × State W → Result CoreError Connection × State W
  conclude (ok c, s) = (ok c, s)
  conclude (err e, s) =
      (err e, ((destroy_created s.created_id >> emit (failed (stage_of e) e)) s).1)

  unfoldable pub connect : Draws → Text → Text → List Text → M W Connection
  unfolding conclude
  connect d region instance_type allowed_ips s =
      conclude (connect_inner d region instance_type allowed_ips (record s { created_id = none }))

  unfoldable pub disconnect : Text → M W (Unit {0})
  disconnect instance_id = do
    emit disconnecting
    ignore (call deps.down)
    emit destroying
    delete_instance deps.cloud instance_id
    emit idle
