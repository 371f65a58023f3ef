-- ===== src/Api/Ratelimit.antt =====
-- services/api/src/ratelimit.rs: the sliding-window rate limiter. Instants and durations are
-- nanoseconds; the clock's reading is an argument. The mutex makes a check one step.
pub mod Window
use vpn_password_manager.Base.{
  ℕ, ◌-◌, Text, Bool, true, false, List, [], ◌∷◌, ◌++◌, Option, none, some, length, ltb, leb,
  retain, if◌then◌else◌,
}
use vpn_password_manager.Base.Assoc.{Assoc, lookup, insert}

abbrev pub RateLimiter : Type 0
RateLimiter = Assoc (List ℕ)

-- `entry(key).or_default()`.
abbrev pub hits_of : Text → RateLimiter → List ℕ
hits_of key rl = elim (lookup key rl) [ none ↦ [] | some hits ↦ hits ]

-- `now.duration_since(t) < window`; the difference stops at 0.
abbrev pub is_recent : ℕ → ℕ → ℕ → Bool
is_recent now window t = ltb (now - t) window

unfoldable pub check : ℕ → Text → ℕ → ℕ → RateLimiter → Bool × RateLimiter
check now key max window rl =
    let hits = retain (is_recent now window) (hits_of key rl) in
    if leb max (length hits)
    then (false, insert key hits rl)
    else (true, insert key (hits ++ (now ∷ [])) rl)
