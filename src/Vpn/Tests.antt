-- ===== src/Vpn/Tests.antt =====
-- The theorems on the VPN at concrete inputs: a provider that lists two nodes and creates a third,
-- whose callback never comes.
use vpn_password_manager.Base.{
  ℕ, Text, codes, List, [], ◌∷◌, ◌++◌, Option, none, some, ◌≡◌, ◌≢◌, refl, inl, inr, ◌⊎◌, ◌↔◌, In,
  map, reverse, text_eq, true,
}
use vpn_password_manager.Base.Format.{trim}
use vpn_password_manager.Error.{CoreError, ok, err, provision}
use vpn_password_manager.Cloud.Provider.{Instance, InstanceState, CloudProvider}
use vpn_password_manager.Wg.{full_tunnel}
use vpn_password_manager.Vpn.Effects.{
  ConnectDeps, State, Event, emitted, delete_asked, disconnecting, destroying, idle, call,
  deletions,
}
use vpn_password_manager.Vpn.Session.{WgKeypair, Draws, connect, disconnect}
use vpn_password_manager.Vpn.Session.Cleanup.{Ends, connect-Ends, disconnect_lem}
use vpn_password_manager.Vpn.Sweep.{orphans, orphan_sweep_keeping, orphan_sweep_keeping_lem}
use vpn_password_manager.Vpn.SplitTunnel.{
  decide_allowed_ips, looks_like_cidr, is_split, IsChosen, decide_allowed_ips_lem,
}

abbrev node : Text → Instance
node id = record {
  id = id;
  region = codes "eu";
  instance_type = codes "nano";
  state = InstanceState.running;
  ipv4 = some (codes "192.0.2.7");
  tags = [];
}

abbrev nodes : List Instance
nodes = node (codes "n1") ∷ node (codes "n2") ∷ []

abbrev cloud : CloudProvider (Unit {0})
cloud = record {
  create = λ spec w. (ok (node (codes "n3")), w);
  get = λ id w. (ok (node id), w);
  delete = λ id w. (ok tt, w);
  list_ephemeral = λ w. (ok nodes, w);
}

abbrev no_callback : ConnectDeps (Unit {0})
no_callback = record {
  cloud = cloud;
  fetch = λ ip token key w. (err (provision "callback"), w);
  up = λ conf w. (ok tt, w);
  down = λ w. (ok tt, w);
  render_base64 = λ params. ok (codes "I2Nsb3Vk");
  max_boot_polls = 3;
}

abbrev kp : WgKeypair
kp = record { private_base64 = codes "priv"; public_base64 = codes "pub" }

abbrev draws : Draws
draws = record { client_kp = kp; server_kp = kp; token_b = 171 ∷ []; hmac_b = 205 ∷ [] }

abbrev start : State (Unit {0})
start = record { world = tt; trace = []; created_id = none }

connect-Ends_example :
    Ends
      (Unit {0})
      []
      (connect no_callback draws (codes "eu") (codes "nano") [] start).0
      (connect no_callback draws (codes "eu") (codes "nano") [] start).1
connect-Ends_example = connect-Ends no_callback draws [] (codes "eu") (codes "nano") start

-- The node of the failed attempt is destroyed.
node_destroyed :
    deletions (connect no_callback draws (codes "eu") (codes "nano") [] start).1.trace
    ≡ codes "n3" ∷ []
unfolding connect vpn_password_manager.Vpn.Session.connect_inner
    vpn_password_manager.Vpn.Effects.◌>>=◌ vpn_password_manager.Vpn.Effects.lift
    vpn_password_manager.Vpn.Effects.emit vpn_password_manager.Vpn.Effects.create_instance
    vpn_password_manager.Vpn.Effects.set_created vpn_password_manager.Vpn.Session.bring_up
    vpn_password_manager.Vpn.Session.wait_for_boot call
    vpn_password_manager.Cloud.Provider.is_running vpn_password_manager.Vpn.Session.destroy_created
    vpn_password_manager.Vpn.Effects.ignore vpn_password_manager.Vpn.Effects.delete_instance
node_destroyed = refl

disconnect_lem_example :
    let asked = delete_asked (codes "n1") ∷ emitted destroying ∷ emitted disconnecting ∷ [] in
    ((e : CoreError) × ((cloud.delete (codes "n1") tt).0 ≡ err e)
      × ((disconnect no_callback (codes "n1") start).0 ≡ err e)
      × ((disconnect no_callback (codes "n1") start).1.trace ≡ asked))
    ⊎ (((cloud.delete (codes "n1") tt).0 ≡ ok tt)
        × ((disconnect no_callback (codes "n1") start).0 ≡ ok tt)
        × ((disconnect no_callback (codes "n1") start).1.trace ≡ emitted idle ∷ asked))
disconnect_lem_example = disconnect_lem no_callback (codes "n1") start

nodes_listed : (call cloud.list_ephemeral start).0 ≡ ok nodes
unfolding call
nodes_listed = refl

orphan_sweep_keeping_lem_example :
    let t = (orphan_sweep_keeping cloud (codes "n1" ∷ []) start).1 in
    (reaped : List Text) × ((orphan_sweep_keeping cloud (codes "n1" ∷ []) start).0 ≡ ok reaped)
    × (deletions t.trace ≡ reverse (orphans cloud (codes "n1" ∷ []) nodes) ++ [])
    × ((id : Text)
        → In id (orphans cloud (codes "n1" ∷ []) nodes)
          ↔ (In id (codes "n1" ∷ codes "n2" ∷ []) × ¬ In id (codes "n1" ∷ [])))
    × ((id : Text) → In id reaped → In id (orphans cloud (codes "n1" ∷ []) nodes))
orphan_sweep_keeping_lem_example =
    orphan_sweep_keeping_lem cloud (codes "n1" ∷ []) start nodes nodes_listed

abbrev routes : List Text
routes = codes "office" ∷ codes " 10.0.0.0/8" ∷ []

abbrev split : Option Text
split = some (codes "split")

decide_allowed_ips_lem_example :
    (decide_allowed_ips split routes ≢ [])
    × ((decide_allowed_ips split routes ≡ full_tunnel)
        ⊎ ((is_split split ≡ true)
            × ((r : Text) → In r (decide_allowed_ips split routes) ↔ IsChosen routes r)))
decide_allowed_ips_lem_example = decide_allowed_ips_lem split routes

is_route : looks_like_cidr (trim (codes " 10.0.0.0/8")) ≡ true
unfolding looks_like_cidr vpn_password_manager.Base.Format.split_once trim
    vpn_password_manager.Base.Format.parse_u32 vpn_password_manager.Base.Format.contains
is_route = refl

split_mode : is_split split ≡ true
unfolding text_eq
split_mode = refl
