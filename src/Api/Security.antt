-- ===== src/Api/Security.antt =====
-- services/api/src/security.rs: the record of failed sign-ins and the bans of addresses. A time is
-- in seconds. Parsing an address is the standard library's, a parameter: the canonical text of a
-- real one. The text of a reason is left out, and a statement of the database is taken to succeed.
-- The settings, of config.rs, are exact: the `f64` that the database is given are not modelled.
pub mod Bans
use vpn_password_manager.Base.{
  ℕ, zero, suc, ◌+◌, ◌*◌, Text, codes, text_eq, Bool, true, false, ◌&&◌, ◌||◌, List, [], ◌∷◌, ◌++◌,
  Option, none, some, any, length, retain, ltb, leb, ◌==◌, if◌then◌else◌, ℤ, pos, negsuc, ◌+ℤ◌,
  ◌-ℤ◌, ltb_ℤ,
}
use vpn_password_manager.Base.Assoc.{Assoc, lookup, insert, remove}

pub record SecurityEvent : Type 0 where
  pub account : Option Text
  pub kind : Text
  pub ip : Option Text
  pub created_at : ℕ

pub record AutobanConfig : Type 0 where
  pub threshold : ℕ
  pub window_secs : ℤ
  pub minutes : ℤ

-- The two tables; a ban holds until a time, or for ever.
pub record Monitor : Type 0 where
  pub events : List SecurityEvent
  pub banned : Assoc (Option ℤ)

-- In seconds.
abbrev pub minutes_long : ℤ → ℤ
minutes_long (pos n) = pos (n * 60)
minutes_long (negsuc n) = negsuc (n * 60 + 59)

abbrev pub failure_kinds : List Text
failure_kinds =
    codes "login_fail_bootstrap"
    ∷ codes "google_reject"
    ∷ codes "totp_fail"
    ∷ codes "refresh_reuse"
    ∷ []

abbrev pub same_ip : Text → Option Text → Bool
same_ip ip none = false
same_ip ip (some other) = text_eq other ip

module _ (ip_opt : Text → Option Text) (now : ℕ) where
  unfoldable pub record_event : Monitor → Option Text → Text → Text → Monitor
  record_event m account kind ip = record m {
    events =
        m.events
        ++ (record { account = account; kind = kind; ip = ip_opt ip; created_at = now } ∷ []);
  }

  abbrev pub is_active : Option ℤ → Bool
  is_active none = true
  is_active (some until) = ltb_ℤ (pos now) until

  unfoldable pub is_banned : Monitor → Text → Bool
  is_banned m ip = elim (ip_opt ip) [
    | none ↦ false
    | some lit ↦ elim (lookup lit m.banned) [ none ↦ false | some until ↦ is_active until ]
  ]

  -- The failures that the count takes: of this address, in the window.
  abbrev pub is_failure : AutobanConfig → Text → SecurityEvent → Bool
  is_failure cfg ip e =
      same_ip ip e.ip
      && ltb_ℤ (pos now -ℤ cfg.window_secs) (pos e.created_at)
      && any (λ k. text_eq k e.kind) failure_kinds

  abbrev pub is_owner : Text → SecurityEvent → Bool
  is_owner ip e =
      same_ip ip e.ip && text_eq e.kind (codes "login_ok") && ltb now (e.created_at + 86400)

  unfoldable pub maybe_autoban : AutobanConfig → Monitor → Text → Monitor
  unfolding record_event
  maybe_autoban cfg m ip = if cfg.threshold == 0 then m else elim (ip_opt ip) [
    | none ↦ m
    | some lit ↦
        if ltb (length (retain (is_failure cfg lit) m.events)) cfg.threshold
        then m
        else if any (is_owner lit) m.events
        then m
        else record_event
            (record m { banned = insert lit (some (pos now +ℤ minutes_long cfg.minutes)) m.banned })
            none (codes "auto_ban") ip
  ]

  -- No minutes, or none that are positive, ban for ever.
  unfoldable pub ban : Monitor → Text → Option ℤ → Monitor
  ban m ip minutes = elim (ip_opt ip) [
    | none ↦ m
    | some lit ↦ record m {
      banned =
          insert lit
            (elim minutes [
              | none ↦ none
              | some n ↦ if ltb_ℤ (pos 0) n then some (pos now +ℤ minutes_long n) else none
            ])
            m.banned;
    }
  ]

  unfoldable pub unban : Monitor → Text → Monitor
  unban m ip = elim (ip_opt ip) [ none ↦ m | some lit ↦ record m { banned = remove lit m.banned } ]
