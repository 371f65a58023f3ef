-- ===== src/Api/Sessions/Tests.antt =====
-- The theorems on sessions and bans at one live token and one failed sign-in.
use vpn_password_manager.Base.{
  ℕ, ◌+◌, Text, codes, text_eq, Bool, true, false, List, [], ◌∷◌, Option, none, some, ◌≡◌, refl,
  ltb_ℤ, pos, if◌then◌else◌, ◌&&◌, arith,
}
use vpn_password_manager.Base.Assoc.{lookup}
use vpn_password_manager.Error.{ok}
use vpn_password_manager.Api.Security.{AutobanConfig, Monitor, is_banned, maybe_autoban}
use vpn_password_manager.Api.Security.Bans.{is_due, maybe_autoban_lem}
use vpn_password_manager.Api.Sessions.{
  RefreshToken, Tokens, Service, Env, TokensResp, is_live, auth_refresh,
}
use vpn_password_manager.Api.Sessions.Rotation.{IsRotated, auth_refresh-IsRotated}

abbrev cfg : AutobanConfig
cfg = record { threshold = 1; window_secs = pos 600; minutes = pos 10 }

abbrev real : Text → Option Text
real ip = some ip

abbrev env : ℕ → Text → Env
env now fresh = record {
  now = now;
  instant = now;
  cfg = cfg;
  ip_opt = real;
  sha256 = λ t. t;
  fresh_token = fresh;
  fresh_id = fresh;
  issue_access = λ account device now. ok (codes "jwt");
}

abbrev first_token : RefreshToken
first_token = record {
  account = codes "me";
  device = codes "phone";
  token_hash = codes "t1";
  parent_id = none;
  expires_at = 1000;
  revoked_at = none;
}

abbrev service : Service
service = record {
  tokens = (codes "id1", first_token) ∷ [];
  monitor = record { events = []; banned = [] };
  limiter = [];
}

abbrev home : Text
home = codes "192.0.2.1"

abbrev resp : TokensResp
resp = record { access_token = codes "jwt"; refresh_token = codes "t2"; expires_in = 600 }

abbrev thief : Text
thief = codes "198.51.100.7"

one-IsRotated : IsRotated service.tokens
unfolding lookup
one-IsRotated = record {
  unique = (refl, tt);
  parents = λ id p t at is_parent. absurd (ground (arith, at, is_parent));
}

auth_refresh-IsRotated_example :
    IsRotated (auth_refresh (env 10 (codes "t2")) service home (codes "t1")).0.tokens
auth_refresh-IsRotated_example =
    auth_refresh-IsRotated (env 10 (codes "t2")) service home (codes "t1") one-IsRotated

abbrev failed_once : Monitor
failed_once = record {
  events =
      record { account = none; kind = codes "totp_fail"; ip = some thief; created_at = 5 } ∷ [];
  banned = [];
}

maybe_autoban_lem_example :
    ((later : ℕ)
      → is_banned real later (maybe_autoban real 8 cfg failed_once thief) thief ≡ (
          if is_due real 8 cfg failed_once thief thief
          then ltb_ℤ (pos later) (pos 608)
          else is_banned real later failed_once thief))
    × ((other : Text)
        → lookup other (maybe_autoban real 8 cfg failed_once thief).banned ≡ (
            if is_due real 8 cfg failed_once thief thief && text_eq thief other
            then some (some (pos 608))
            else lookup other failed_once.banned))
unfolding vpn_password_manager.Base.◌+ℤ◌
maybe_autoban_lem_example = maybe_autoban_lem real 8 cfg failed_once thief thief refl
