-- ===== src/Cloud/Watchdog/Transitions.antt =====
-- The down and recovered alerts of a server alternate: the loop over the samples of a tick.
use vpn_password_manager.Base.{
  Text, text_eq, text_eq_iff, text_eq_refl, Bool, true, false, not, List, [], ◌∷◌, ◌++◌, some, ◌≡◌,
  refl, sym, ap, ◌∙◌, subst, if◌then◌else◌, arith, Bool-cases, append-nil, inl, inr,
}
use vpn_password_manager.Base.Assoc.{lookup, insert, lookup-insert, IsUnique, insert-IsUnique}
use vpn_password_manager.Cloud.Watchdog.{
  Float, EntryState, WatchdogState, WatchdogCfg, ServerSample, Alert, down, recovered, cpu_high,
  disk_high, netdata_alarm, entry_or_default, watch_running, watch_cpu, watch_disk, watch_alarms,
  watch, watch_all,
}

-- From a latch that is set or not, each down (`true`) sets it and each recovered clears it.
abbrev pub Alternates : Bool → List Bool → Bool → Type 0
Alternates b [] b' = b ≡ b'
Alternates b (x ∷ xs) b' = (x ≡ not b) × Alternates x xs b'

pub Alternates-append :
    (xs ys : List Bool) (a b c : Bool)
    → Alternates a xs b
    → Alternates b ys c
    → Alternates a (xs ++ ys) c
Alternates-append [] ys a b c p q = subst (λ x. Alternates x ys c) (sym p) q
Alternates-append (x ∷ xs) ys a b c (e, p) q = (e, Alternates-append xs ys x b c p q)

-- The latch of a server; one never seen has none set.
abbrev pub latch : WatchdogState → Text → Bool
latch st k = (entry_or_default (lookup k st)).down_latched

pub latch-insert :
    (j k : Text) (e : EntryState) (st : WatchdogState)
    → text_eq j k ≡ true
    → latch (insert j e st) k ≡ e.down_latched
latch-insert j k e st p =
    let found : lookup k (insert j e st) ≡ some e = rw (lookup-insert j k e st, p) refl in
    ap (λ o. (entry_or_default o).down_latched) found

pub latch-insert_other :
    (j k : Text) (e : EntryState) (st : WatchdogState)
    → text_eq j k ≡ false
    → latch (insert j e st) k ≡ latch st k
latch-insert_other j k e st p =
    let found : lookup k (insert j e st) ≡ lookup k st = rw (lookup-insert j k e st, p) refl in
    ap (λ o. (entry_or_default o).down_latched) found

module _ (fl : Float) where
  -- The down and recovered alerts of a server.
  abbrev pub updown : Text → List (Alert fl) → List Bool
  updown k [] = []
  updown k (down j l ∷ alerts) = if text_eq j k then true ∷ updown k alerts else updown k alerts
  updown k (recovered j l ∷ alerts) =
      if text_eq j k then false ∷ updown k alerts else updown k alerts
  updown k (a ∷ alerts) = updown k alerts

  pub updown-append :
      (k : Text) (alerts bs : List (Alert fl))
      → updown k (alerts ++ bs) ≡ updown k alerts ++ updown k bs
  updown-append k [] bs = refl
  updown-append k (down j l ∷ alerts) bs = ground (arith, updown-append k alerts bs)
  updown-append k (recovered j l ∷ alerts) bs = ground (arith, updown-append k alerts bs)
  updown-append k (cpu_high j l p ∷ alerts) bs = updown-append k alerts bs
  updown-append k (disk_high j l p ∷ alerts) bs = updown-append k alerts bs
  updown-append k (netdata_alarm j l n ∷ alerts) bs = updown-append k alerts bs

  module _ (cfg : WatchdogCfg fl) (s : ServerSample fl) (e : EntryState) where
    -- The other three parts fire no such alert and leave the latch alone.
    abbrev Silent : EntryState × List (Alert fl) → Type 0
    Silent r = ((k : Text) → updown k r.1 ≡ []) × (r.0.down_latched ≡ e.down_latched)

    cpu-Silent : Silent (watch_cpu fl cfg s e)
    unfolding watch_cpu
    cpu-Silent = (λ k. ground arith, ground arith)

    disk-Silent : Silent (watch_disk fl cfg s e)
    unfolding watch_disk
    disk-Silent = (λ k. ground arith, ground arith)

    alarms-Silent : Silent (watch_alarms fl s e)
    unfolding watch_alarms
    alarms-Silent = (λ k. ground arith, ground arith)

    running-Alternates :
        Alternates e.down_latched
          (updown s.key (watch_running fl s e).1)
          (watch_running fl s e).0.down_latched
    unfolding watch_running
    running-Alternates = ground (arith, text_eq_refl s.key)

    running-other : (k : Text) → text_eq s.key k ≡ false → updown k (watch_running fl s e).1 ≡ []
    unfolding watch_running
    running-other k h = ground arith

  module _ (cfg : WatchdogCfg fl) (s : ServerSample fl) (e : EntryState) where
    -- One sample fires what its transition fires, of these alerts.
    updown-watch : (k : Text) → updown k (watch fl cfg s e).1 ≡ updown k (watch_running fl s e).1
    unfolding watch
    updown-watch k =
        let e1 = (watch_running fl s e).0 in
        let e2 = (watch_cpu fl cfg s e1).0 in
        let e3 = (watch_disk fl cfg s e2).0 in
        simp (
          updown-append,
          (cpu-Silent cfg s e1).0,
          (disk-Silent cfg s e2).0,
          (alarms-Silent cfg s e3).0,
          append-nil,
        )

    watch-latch : (watch fl cfg s e).0.down_latched ≡ (watch_running fl s e).0.down_latched
    unfolding watch
    watch-latch =
        let e1 = (watch_running fl s e).0 in
        let e2 = (watch_cpu fl cfg s e1).0 in
        let e3 = (watch_disk fl cfg s e2).0 in
        (alarms-Silent cfg s e3).1 ∙ (disk-Silent cfg s e2).1 ∙ (cpu-Silent cfg s e1).1

  -- One round of the loop, as a server sees it.
  watch_one-Alternates :
      (cfg : WatchdogCfg fl) (s : ServerSample fl) (st : WatchdogState) (k : Text)
      → let r = watch fl cfg s (entry_or_default (lookup s.key st)) in
        Alternates (latch st k) (updown k r.1) (latch (insert s.key r.0 st) k)
  watch_one-Alternates cfg s st k =
      let e = entry_or_default (lookup s.key st) in
      let r = watch fl cfg s e in
      elim (Bool-cases (text_eq s.key k)) [
        | inl p ↦
            let same : s.key ≡ k = (text_eq_iff s.key k).0 p in
            subst (λ j. Alternates (latch st j) (updown j r.1) (latch (insert s.key r.0 st) j)) same
              (rw
                (
                  updown-watch cfg s e s.key,
                  latch-insert s.key s.key r.0 st (text_eq_refl s.key),
                  watch-latch cfg s e,
                )
                (running-Alternates cfg s e))
        | inr p ↦
            rw (updown-watch cfg s e k, running-other cfg s e k p)
              (sym (latch-insert_other s.key k r.0 st p))
      ]

  pub watch_all-Alternates :
      (cfg : WatchdogCfg fl) (samples : List (ServerSample fl)) (st : WatchdogState) (k : Text)
      → let r = watch_all fl cfg samples st in Alternates (latch st k) (updown k r.1) (latch r.0 k)
  unfolding watch_all
  watch_all-Alternates cfg [] st k = refl
  watch_all-Alternates cfg (s ∷ samples) st k =
      let r = watch fl cfg s (entry_or_default (lookup s.key st)) in
      let st' = insert s.key r.0 st in
      let later = watch_all fl cfg samples st' in
      subst (λ x. Alternates (latch st k) x (latch later.0 k)) (sym (updown-append k r.1 later.1))
        (Alternates-append (updown k r.1) (updown k later.1) (latch st k) (latch st' k)
          (latch later.0 k) (watch_one-Alternates cfg s st k)
          (watch_all-Alternates cfg samples st' k))

  pub watch_all-IsUnique :
      (cfg : WatchdogCfg fl) (samples : List (ServerSample fl)) (st : WatchdogState)
      → IsUnique st
      → IsUnique (watch_all fl cfg samples st).0
  unfolding watch_all
  watch_all-IsUnique cfg [] st u = u
  watch_all-IsUnique cfg (s ∷ samples) st u =
      let e = (watch fl cfg s (entry_or_default (lookup s.key st))).0 in
      watch_all-IsUnique cfg samples (insert s.key e st) (insert-IsUnique s.key e st u)
