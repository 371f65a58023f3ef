-- ===== src/Cloud/Tests.antt =====
-- The theorems on the watchdog at a server that stops, comes back and leaves the listing, with
-- percentages that are whole numbers.
use vpn_password_manager.Base.{
  ℕ, ◌-◌, Text, codes, Bool, true, false, List, [], ◌∷◌, none, some, ◌≡◌, refl, leb, ltb, length,
  arith,
}
use vpn_password_manager.Cloud.Provider.{InstanceState}
use vpn_password_manager.Cloud.Watchdog.{Float, WatchdogCfg, ServerSample, default_entry}
use vpn_password_manager.Cloud.Watchdog.Cpu.{cpu_alerts, length-cpu_alerts}
use vpn_password_manager.Cloud.Watchdog.Transitions.{Alternates, latch, updown}
use vpn_password_manager.Cloud.Watchdog.History.{Tick, history, history-Alternates}

abbrev whole : Float
whole = record { F = ℕ; ge = λ a b. leb b a; lt = λ a b. ltb a b; sub = λ a b. a - b; five = 5 }

abbrev cfg : WatchdogCfg whole
cfg = record { cpu_pct = 90; cpu_sustain_ticks = 3; disk_pct = 90 }

abbrev web : Text
web = codes "linode:1"

abbrev sample : InstanceState → ServerSample whole
sample state = record {
  key = web;
  label = codes "web";
  state = state;
  cpu_pct = some 95;
  disk_used_pct = none;
  netdata_alarms = some 0;
}

abbrev linode : List Text
linode = codes "linode" ∷ []

abbrev ticks : List (Tick whole)
ticks =
    (sample InstanceState.running ∷ [], linode, cfg)
    ∷ (sample InstanceState.stopped ∷ [], linode, cfg)
    ∷ (sample InstanceState.running ∷ [], linode, cfg)
    ∷ ([], [], cfg)
    ∷ ([], linode, cfg)
    ∷ []

alerts_of_web : updown whole web (history whole ticks []).1 ≡ true ∷ false ∷ true ∷ []
unfolding history vpn_password_manager.Cloud.Watchdog.evaluate
    vpn_password_manager.Cloud.Watchdog.mark_missing vpn_password_manager.Cloud.Watchdog.watch_all
    vpn_password_manager.Cloud.Watchdog.watch vpn_password_manager.Cloud.Watchdog.watch_running
    vpn_password_manager.Base.Assoc.lookup vpn_password_manager.Cloud.Watchdog.watch_cpu
    vpn_password_manager.Cloud.Watchdog.watch_disk vpn_password_manager.Cloud.Watchdog.watch_alarms
    vpn_password_manager.Base.Assoc.insert vpn_password_manager.Cloud.Watchdog.is_missing
    vpn_password_manager.Cloud.Provider.is_running vpn_password_manager.Base.text_eq
    vpn_password_manager.Cloud.Watchdog.starts_with
alerts_of_web = refl

history-Alternates_example :
    Alternates false
      (updown whole web (history whole ticks []).1)
      (latch (history whole ticks []).0 web)
history-Alternates_example = history-Alternates whole ticks web

length-cpu_alerts_example :
    length
      (cpu_alerts whole cfg (sample InstanceState.running) (95 ∷ 90 ∷ 97 ∷ 99 ∷ []) default_entry)
    ≡ 1
length-cpu_alerts_example =
    length-cpu_alerts whole cfg (sample InstanceState.running) (95 ∷ 90 ∷ 97 ∷ 99 ∷ [])
      default_entry (refl, (refl, (refl, (refl, tt)))) refl refl (omega arith)
