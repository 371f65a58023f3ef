-- ===== src/Cloud/Watchdog.antt =====
-- crates/core/src/cloud/watchdog.rs: which alerts a tick of the server watchdog fires. Percentages
-- are `f64`s: a parameter with the comparisons that the code makes. The entries stand in the order
-- in which the servers were first seen; the hash map gives them in an order of its own.
pub mod Transitions
pub mod History
pub mod Cpu
use vpn_password_manager.Base.{
  ℕ, ◌+◌, ◌%◌, ◌^◌, Text, text_eq, Bool, true, false, ◌&&◌, not, List, [], ◌∷◌, ◌++◌, Option, none,
  some, ltb, leb, ◌==◌, any, retain, map, if◌then◌else◌,
}
use vpn_password_manager.Base.Assoc.{Assoc, lookup, insert}
use vpn_password_manager.Cloud.Provider.{InstanceState, is_running}

-- The floating-point numbers: `>=`, `<`, `-` and the literal 5.0.
pub record Float : Type 1 where
  pub F : Type 0
  pub ge : F → F → Bool
  pub lt : F → F → Bool
  pub sub : F → F → F
  pub five : F

pub record EntryState : Type 0 where
  pub was_running : Bool
  pub down_latched : Bool
  pub cpu_over_ticks : ℕ
  pub cpu_latched : Bool
  pub disk_latched : Bool
  pub alarm_latched : Bool

abbrev pub default_entry : EntryState
default_entry = record {
  was_running = false;
  down_latched = false;
  cpu_over_ticks = 0;
  cpu_latched = false;
  disk_latched = false;
  alarm_latched = false;
}

-- `entry(key).or_default()`.
abbrev pub entry_or_default : Option EntryState → EntryState
entry_or_default none = default_entry
entry_or_default (some e) = e

abbrev pub WatchdogState : Type 0
WatchdogState = Assoc EntryState

-- `starts_with` of the key and a provider's prefix with its colon.
unfoldable pub starts_with : Text → Text → Bool
starts_with [] s = true
starts_with (c ∷ p) [] = false
starts_with (c ∷ p) (d ∷ s) = (c == d) && starts_with p s

module _ (fl : Float) where
  open fl use {F, ge, lt, sub, five}

  pub record WatchdogCfg : Type 0 where
    pub cpu_pct : F
    pub cpu_sustain_ticks : ℕ
    pub disk_pct : F

  pub record ServerSample : Type 0 where
    pub key : Text
    pub label : Text
    pub state : InstanceState
    pub cpu_pct : Option F
    pub disk_used_pct : Option F
    pub netdata_alarms : Option ℕ

  pub data Alert : Type 0 where
    down recovered : Text → Text → Alert
    cpu_high disk_high : Text → Text → F → Alert
    netdata_alarm : Text → Text → ℕ → Alert

  -- Down and recovered: transitions, latched.
  unfoldable pub watch_running : ServerSample → EntryState → EntryState × List Alert
  watch_running s e =
      let running = is_running s.state in
      if e.was_running && not running && not e.down_latched
      then (record e { down_latched = true; was_running = running }, down s.key s.label ∷ [])
      else if e.down_latched && running
      then (record e { down_latched = false; was_running = running }, recovered s.key s.label ∷ [])
      else (record e { was_running = running }, [])

  -- CPU: sustained over the threshold, latched, armed again below it. The ticks are a `u32`.
  unfoldable pub watch_cpu : WatchdogCfg → ServerSample → EntryState → EntryState × List Alert
  watch_cpu cfg s e = elim s.cpu_pct [
    | none ↦ (e, [])
    | some p ↦
        if ge p cfg.cpu_pct
        then (let ticks = (e.cpu_over_ticks + 1) % 2 ^ 32 in
            if leb cfg.cpu_sustain_ticks ticks && not e.cpu_latched
            then (
              record e { cpu_over_ticks = ticks; cpu_latched = true },
              cpu_high s.key s.label p ∷ [],
            )
            else (record e { cpu_over_ticks = ticks }, []))
        else (record e { cpu_over_ticks = 0; cpu_latched = false }, [])
  ]

  -- Disk: at once, latched, armed again five points under the threshold.
  unfoldable pub watch_disk : WatchdogCfg → ServerSample → EntryState → EntryState × List Alert
  watch_disk cfg s e = elim s.disk_used_pct [
    | none ↦ (e, [])
    | some p ↦
        if ge p cfg.disk_pct
        then (if not e.disk_latched
            then (record e { disk_latched = true }, disk_high s.key s.label p ∷ [])
            else (e, []))
        else if lt p (sub cfg.disk_pct five)
        then (record e { disk_latched = false }, [])
        else (e, [])
  ]

  -- Netdata alarms: latched while any is active.
  unfoldable pub watch_alarms : ServerSample → EntryState → EntryState × List Alert
  watch_alarms s e = elim s.netdata_alarms [
    | none ↦ (e, [])
    | some n ↦
        if ltb 0 n
        then (if not e.alarm_latched
            then (record e { alarm_latched = true }, netdata_alarm s.key s.label n ∷ [])
            else (e, []))
        else (record e { alarm_latched = false }, [])
  ]

  -- One sample: the four parts of the loop's body, in order.
  unfoldable pub watch : WatchdogCfg → ServerSample → EntryState → EntryState × List Alert
  watch cfg s e =
      let (e1, a1) = watch_running s e in
      let (e2, a2) = watch_cpu cfg s e1 in
      let (e3, a3) = watch_disk cfg s e2 in
      let (e4, a4) = watch_alarms s e3 in (e4, a1 ++ (a2 ++ (a3 ++ a4)))

  unfoldable pub watch_all :
      WatchdogCfg → List ServerSample → WatchdogState → WatchdogState × List Alert
  watch_all cfg [] st = (st, [])
  watch_all cfg (s ∷ samples) st =
      let (e, alerts) = watch cfg s (entry_or_default (lookup s.key st)) in
      let (st', later) = watch_all cfg samples (insert s.key e st) in (st', alerts ++ later)

  -- A server that ran, is not latched and is absent from a listing that succeeded.
  unfoldable pub is_missing : List ServerSample → List Text → Text × EntryState → Bool
  is_missing samples providers_ok (key, e) =
      e.was_running
      && not e.down_latched
      && not (any (λ (s : ServerSample). text_eq s.key key) samples)
      && any (λ p. starts_with (p ++ (b':' ∷ [])) key) providers_ok

  unfoldable pub mark_missing : List Text → WatchdogState → WatchdogState × List Alert
  mark_missing [] st = (st, [])
  mark_missing (key ∷ keys) st =
      let e = entry_or_default (lookup key st) in
      let st' = insert key (record e { down_latched = true; was_running = false }) st in
      let (st'', later) = mark_missing keys st' in (st'', down key key ∷ later)

  unfoldable pub evaluate :
      WatchdogState → List ServerSample → List Text → WatchdogCfg → WatchdogState × List Alert
  evaluate st samples providers_ok cfg =
      let missing = map (λ x. x.0) (retain (is_missing samples providers_ok) st) in
      let (st1, gone) = mark_missing missing st in
      let (st2, seen) = watch_all cfg samples st1 in (st2, gone ++ seen)
