-- ===== src/Api/Tests.antt =====
-- The theorem on the rate limiter at four checks of a key that allows two hits in ten nanoseconds.
use vpn_password_manager.Base.{ℕ, Text, codes, Bool, true, false, List, [], ◌∷◌, ◌≡◌, refl, arith}
use vpn_password_manager.Api.Ratelimit.Window.{Call, run, ideal_run, run-ideal_run}

abbrev ten : Text → ℕ
ten key = 10

abbrev login_at : ℕ → Call
login_at t = record { now = t; key = codes "login:192.0.2.1"; max = 2 }

abbrev calls : List Call
calls = login_at 1 ∷ login_at 2 ∷ login_at 5 ∷ login_at 11 ∷ []

third_denied : (run ten calls []).0 ≡ true ∷ true ∷ false ∷ true ∷ []
unfolding run vpn_password_manager.Api.Ratelimit.check vpn_password_manager.Base.Assoc.lookup
    vpn_password_manager.Base.Assoc.insert vpn_password_manager.Base.text_eq
third_denied = refl

run-ideal_run_example : (run ten calls []).0 ≡ (ideal_run ten calls []).0
run-ideal_run_example =
    run-ideal_run ten calls (omega arith, (omega arith, (omega arith, (omega arith, tt))))
