-- ===== src/Cloud/Watchdog/Cpu.antt =====
-- The CPU alert: once for a stretch of samples over the threshold, and only if it lasts.
use vpn_password_manager.Base.{
  suc, ◌+◌, ◌^◌, ◌<◌, true, false, ◌&&◌, List, [], ◌∷◌, ◌++◌, some, length, length-append, leb,
  if◌then◌else◌, All, ◌≡◌, refl, arith, Bool-cases, inl, inr,
}
use vpn_password_manager.Cloud.Watchdog.{
  Float, EntryState, WatchdogCfg, ServerSample, Alert, watch_cpu,
}

module _ (fl : Float) (cfg : WatchdogCfg fl) (s : ServerSample fl) where
  open fl use {F, ge}

  abbrev at_cpu : F → EntryState → EntryState × List (Alert fl)
  at_cpu p e = watch_cpu fl cfg (record s { cpu_pct = some p }) e

  -- The CPU alerts of samples of the server with these percentages, one after the other.
  unfoldable pub cpu_alerts : List F → EntryState → List (Alert fl)
  cpu_alerts [] e = []
  cpu_alerts (p ∷ ps) e = (at_cpu p e).1 ++ cpu_alerts ps (at_cpu p e).0

  abbrev pub AllOver : List F → Type 0
  AllOver ps = All (λ p. ge p cfg.cpu_pct ≡ true) ps

  latched_silent :
      (ps : List F) (e : EntryState)
      → AllOver ps
      → e.cpu_latched ≡ true
      → length (cpu_alerts ps e) ≡ 0
  unfolding cpu_alerts watch_cpu
  latched_silent [] e over l = refl
  latched_silent (p ∷ ps) e over l =
      let e' = (at_cpu p e).0 in
      let still : e'.cpu_latched ≡ true = unfold watch_cpu in ground (arith, over.0, l) in
      let none_now : length (at_cpu p e).1 ≡ 0 = unfold watch_cpu in ground (arith, over.0, l) in
      ground (
        arith,
        latched_silent ps e' over.1 still,
        none_now,
        length-append (at_cpu p e).1 (cpu_alerts ps e'),
      )

  module _ (p : F) (e : EntryState) (over : ge p cfg.cpu_pct ≡ true) (l : e.cpu_latched ≡ false)
      (small : suc e.cpu_over_ticks < 2 ^ 32) where
    fires :
        leb cfg.cpu_sustain_ticks (suc e.cpu_over_ticks) ≡ true
        → (length (at_cpu p e).1 ≡ 1) × ((at_cpu p e).0.cpu_latched ≡ true)
    unfolding watch_cpu
    fires h = ground (arith, over, l, small, h)

    waits :
        leb cfg.cpu_sustain_ticks (suc e.cpu_over_ticks) ≡ false
        → (length (at_cpu p e).1 ≡ 0)
          × ((at_cpu p e).0.cpu_latched ≡ false)
          × ((at_cpu p e).0.cpu_over_ticks ≡ suc e.cpu_over_ticks)
    unfolding watch_cpu
    waits h = ground (arith, over, l, small, h)

  count_from :
      (ps : List F) (e : EntryState)
      → AllOver ps
      → e.cpu_latched ≡ false
      → e.cpu_over_ticks + length ps < 2 ^ 32
      → length (cpu_alerts ps e) ≡ (
          if leb 1 (length ps) && leb cfg.cpu_sustain_ticks (e.cpu_over_ticks + length ps)
          then 1
          else 0)
  unfolding cpu_alerts
  count_from [] e over l small = ground arith
  count_from (p ∷ ps) e over l small =
      let e' = (at_cpu p e).0 in
      let here = (at_cpu p e).1 in
      let sum = length-append here (cpu_alerts ps e') in
      let one : suc e.cpu_over_ticks < 2 ^ 32 = omega (arith, small) in
      elim (Bool-cases (leb cfg.cpu_sustain_ticks (suc e.cpu_over_ticks))) [
        | inl h ↦
            let (fired, latched) = fires p e over.0 l one h in
            let quiet = latched_silent ps e' over.1 latched in ground (arith, sum, fired, quiet, h)
        | inr h ↦
            let (none_now, unlatched, ticks) = waits p e over.0 l one h in
            let later = count_from ps e' over.1 unlatched (omega (arith, ticks, small)) in
            ground (arith, sum, none_now, ticks, later, h)
      ]

  -- From an entry that counts nothing and has no CPU alert standing, fewer than 2 ^ 32 samples in a
  -- row over the threshold raise one CPU alert if there is one of them at least and they are at
  -- least as many as the setting asks for, and none otherwise.
  pub length-cpu_alerts :
      (ps : List F) (e : EntryState)
      → AllOver ps
      → e.cpu_latched ≡ false
      → e.cpu_over_ticks ≡ 0
      → length ps < 2 ^ 32
      → length (cpu_alerts ps e)
        ≡ (if leb 1 (length ps) && leb cfg.cpu_sustain_ticks (length ps) then 1 else 0)
  length-cpu_alerts ps e over l start small =
      let counted = count_from ps e over l (omega (arith, start, small)) in
      ground (arith, counted, start)
