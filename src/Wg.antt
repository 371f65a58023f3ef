-- ===== src/Wg.antt =====
-- crates/core/src/wg/config.rs: the WireGuard configuration files.
use vpn_password_manager.Base.{ℕ, Text, codes, List, [], ◌∷◌, ◌++◌, is_empty, if◌then◌else◌}
use vpn_password_manager.Base.Format.{trim, decimal, join}

pub record ClientConf : Type 0 where
  pub client_private_key : Text
  pub client_address : Text
  pub dns : Text
  pub server_public_key : Text
  pub server_endpoint : Text
  pub allowed_ips : List Text
  pub keepalive : ℕ

-- A line of the file: a key, its value and the newline.
unfoldable pub line : Text → Text → Text
line key value = key ++ (value ++ (10 ∷ []))

unfoldable pub dns_line : Text → Text
unfolding line
dns_line dns = if is_empty (trim dns) then [] else line (codes "DNS = ") dns

unfoldable pub render_client_conf : ClientConf → Text
unfolding line dns_line
render_client_conf c =
    line (codes "[Interface]") []
    ++ (line (codes "PrivateKey = ") c.client_private_key
        ++ (line (codes "Address = ") c.client_address
            ++ (dns_line c.dns
                ++ (line (codes "MTU = 1280") []
                    ++ (line [] []
                        ++ (line (codes "[Peer]") []
                            ++ (line (codes "PublicKey = ") c.server_public_key
                                ++ (line (codes "Endpoint = ") c.server_endpoint
                                    ++ (line (codes "AllowedIPs = ")
                                          (join (codes ", ") c.allowed_ips)
                                        ++ line (codes "PersistentKeepalive = ")
                                            (decimal c.keepalive))))))))))

pub record ServerConf : Type 0 where
  pub server_private_key : Text
  pub server_address : Text
  pub listen_port : ℕ
  pub client_public_key : Text
  pub client_allowed_ip : Text

unfoldable pub render_server_conf : ServerConf → Text
unfolding line
render_server_conf s =
    line (codes "[Interface]") []
    ++ (line (codes "PrivateKey = ") s.server_private_key
        ++ (line (codes "Address = ") s.server_address
            ++ (line (codes "ListenPort = ") (decimal s.listen_port)
                ++ (line
                      (codes
                        "# SaveConfig deliberately off — the server keeps nothing at shutdown.")
                      []
                    ++ (line (codes "SaveConfig = false") []
                        ++ (line [] []
                            ++ (line (codes "[Peer]") []
                                ++ (line (codes "PublicKey = ") s.client_public_key
                                    ++ line (codes "AllowedIPs = ") s.client_allowed_ip))))))))

-- Standard full-tunnel AllowedIPs.
unfoldable pub full_tunnel : List Text
full_tunnel = codes "0.0.0.0/0" ∷ codes "::/0" ∷ []
