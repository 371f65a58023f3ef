-- ===== src/Api/Security/Bans.antt =====
-- When an address is banned for its failures.
use vpn_password_manager.Base.{
  ℕ, ◌&&◌, not, leb, if◌then◌else◌, Text, text_eq, text_eq_refl, Bool, Option, some, ◌≡◌, arith,
  any, length, retain, ltb, ltb_ℤ, pos, ◌+ℤ◌,
}
use vpn_password_manager.Base.Assoc.{lookup, lookup-insert}
use vpn_password_manager.Api.Security.{
  AutobanConfig, Monitor, minutes_long, is_failure, is_owner, record_event, is_banned,
  maybe_autoban,
}

module _ (ip_opt : Text → Option Text) (now : ℕ) (cfg : AutobanConfig) (m : Monitor)
    (ip lit : Text) where
  -- Bans are switched on, the address has failed often enough in the window, and nobody signed in
  -- from it in the last day.
  abbrev pub is_due : Bool
  is_due =
      ltb 0 cfg.threshold
      && leb cfg.threshold (length (retain (is_failure ip_opt now cfg lit) m.events))
      && not (any (is_owner ip_opt now lit) m.events)

  -- A real address that is due is banned for the minutes of the setting, whatever ban it had, and
  -- one that is not due stays as it was; no other address is affected.
  pub maybe_autoban_lem :
      ip_opt ip ≡ some lit
      → ((later : ℕ)
          → is_banned ip_opt later (maybe_autoban ip_opt now cfg m ip) ip ≡ (
              if is_due
              then ltb_ℤ (pos later) (pos now +ℤ minutes_long cfg.minutes)
              else is_banned ip_opt later m ip))
        × ((other : Text)
            → lookup other (maybe_autoban ip_opt now cfg m ip).banned ≡ (
                if is_due && text_eq lit other
                then some (some (pos now +ℤ minutes_long cfg.minutes))
                else lookup other m.banned))
  unfolding is_banned record_event maybe_autoban
  maybe_autoban_lem real = (
    λ later. ground (
      arith,
      real,
      text_eq_refl lit,
      lookup-insert lit lit (some (pos now +ℤ minutes_long cfg.minutes)) m.banned,
    ),
    λ other. ground (
      arith,
      real,
      lookup-insert lit other (some (pos now +ℤ minutes_long cfg.minutes)) m.banned,
    ),
  )
