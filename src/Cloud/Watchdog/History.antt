-- ===== src/Cloud/Watchdog/History.antt =====
-- The down and recovered alerts of a server alternate: the missing servers, and whole ticks.
use vpn_password_manager.Base.{
  Text, text_eq, text_eq_iff, text_eq_refl, true, false, List, [], ◌∷◌, ◌++◌, none, some, ◌≡◌, refl,
  sym, ap, ◌∙◌, subst, All, retain, map, arith, Bool-cases, inl, inr,
}
use vpn_password_manager.Base.Assoc.{lookup, insert, IsUnique, insert-IsUnique}
use vpn_password_manager.Cloud.Watchdog.{
  Float, EntryState, WatchdogState, WatchdogCfg, ServerSample, Alert, entry_or_default, watch_all,
  is_missing, mark_missing, evaluate,
}
use vpn_password_manager.Cloud.Watchdog.Transitions.{
  Alternates, Alternates-append, latch, latch-insert, latch-insert_other, updown, updown-append,
  watch_all-Alternates, watch_all-IsUnique,
}

-- Distinct servers, none of them latched.
abbrev IsClear : WatchdogState → List Text → Type 0
IsClear st [] = Unit
IsClear st (k ∷ ks) = (latch st k ≡ false) × All (λ j. text_eq k j ≡ false) ks × IsClear st ks

IsClear-insert :
    (k : Text) (e : EntryState) (st : WatchdogState) (ks : List Text)
    → All (λ j. text_eq k j ≡ false) ks
    → IsClear st ks
    → IsClear (insert k e st) ks
IsClear-insert k e st [] a c = tt
IsClear-insert k e st (j ∷ ks) a c =
    (latch-insert_other k j e st a.0 ∙ c.0, c.1, IsClear-insert k e st ks a.1 c.2)

module _ (fl : Float) where
  mark_missing-Alternates :
      (keys : List Text) (st : WatchdogState) (k : Text)
      → IsClear st keys
      → let r = mark_missing fl keys st in Alternates (latch st k) (updown fl k r.1) (latch r.0 k)
  unfolding mark_missing
  mark_missing-Alternates [] st k c = refl
  mark_missing-Alternates (j ∷ keys) st k c =
      let e : EntryState = record (entry_or_default (lookup j st)) {
        down_latched = true;
        was_running = false;
      } in
      let rest =
        mark_missing-Alternates keys (insert j e st) k (IsClear-insert j e st keys c.1 c.2) in
      elim (Bool-cases (text_eq j k)) [
        | inl p ↦
            let mine : latch st k ≡ false =
              subst (λ x. latch st x ≡ false) ((text_eq_iff j k).0 p) c.0 in
            let set : latch (insert j e st) k ≡ true = latch-insert j k e st p in
            ground (arith, p, mine, set, rest)
        | inr p ↦
            let same : latch (insert j e st) k ≡ latch st k = latch-insert_other j k e st p in
            ground (arith, p, same, rest)
      ]

  mark_missing-IsUnique :
      (keys : List Text) (st : WatchdogState) → IsUnique st → IsUnique (mark_missing fl keys st).0
  unfolding mark_missing
  mark_missing-IsUnique [] st u = u
  mark_missing-IsUnique (j ∷ keys) st u =
      mark_missing-IsUnique keys (insert j _ st) (insert-IsUnique j _ st u)

  module _ (samples : List (ServerSample fl)) (ok : List Text) where
    abbrev missing : WatchdogState → List Text
    missing m = map (λ x. x.0) (retain (is_missing fl samples ok) m)

    missing_not_latched :
        (k : Text) (e : EntryState)
        → is_missing fl samples ok (k, e) ≡ true
        → e.down_latched ≡ false
    unfolding is_missing
    missing_not_latched k e p = ground arith

    missing_apart :
        (k : Text) (m : WatchdogState)
        → lookup k m ≡ none
        → All (λ j. text_eq k j ≡ false) (missing m)
    unfolding lookup
    missing_apart k [] p = tt
    missing_apart k ((j, e) ∷ m) p =
        let apart : text_eq k j ≡ false =
          ground (arith, text_eq_iff k j, text_eq_iff j k, text_eq_refl j) in
        let later : lookup k m ≡ none = ground (arith, p) in
        let rest : All (λ i. text_eq k i ≡ false) (missing m) = missing_apart k m later in
        elim (Bool-cases (is_missing fl samples ok (j, e))) [
          | inl q ↦ rw q (apart, rest)
          | inr q ↦ rw q rest
        ]

    missing-IsClear :
        (st m : WatchdogState)
        → ((k : Text) (e : EntryState) → lookup k m ≡ some e → lookup k st ≡ some e)
        → IsUnique m
        → IsClear st (missing m)
    unfolding lookup
    missing-IsClear st [] sub u = tt
    missing-IsClear st ((j, e) ∷ m) sub u =
        let rest : IsClear st (missing m) =
          missing-IsClear st m (λ k d p. sub k d (ground (arith, text_eq_iff j k, u.0, p))) u.1 in
        let here : lookup j st ≡ some e = sub j e (rw (text_eq_refl j) refl) in
        elim (Bool-cases (is_missing fl samples ok (j, e))) [
          | inl q ↦
              let unset : latch st j ≡ false =
                ap (λ o. (entry_or_default o).down_latched) here ∙ missing_not_latched j e q in
              rw q (unset, missing_apart j m u.0, rest)
          | inr q ↦ rw q rest
        ]

  evaluate-Alternates :
      (st : WatchdogState) (samples : List (ServerSample fl)) (ok : List Text)
      (cfg : WatchdogCfg fl) (k : Text)
      → IsUnique st
      → let r = evaluate fl st samples ok cfg in
        Alternates (latch st k) (updown fl k r.1) (latch r.0 k) × IsUnique r.0
  unfolding evaluate
  evaluate-Alternates st samples ok cfg k u =
      let keys = missing samples ok st in
      let gone = mark_missing fl keys st in
      let seen = watch_all fl cfg samples gone.0 in
      (
        subst (λ x. Alternates (latch st k) x (latch seen.0 k))
            (sym (updown-append fl k gone.1 seen.1))
            (Alternates-append (updown fl k gone.1) (updown fl k seen.1) (latch st k)
              (latch gone.0 k) (latch seen.0 k)
              (mark_missing-Alternates keys st k (missing-IsClear samples ok st st (λ j e p. p) u))
              (watch_all-Alternates fl cfg samples gone.0 k)),
        watch_all-IsUnique fl cfg samples gone.0 (mark_missing-IsUnique keys st u),
      )

  -- A tick: its samples, the providers that answered and the settings then in force.
  abbrev pub Tick : Type 0
  Tick = List (ServerSample fl) × List Text × WatchdogCfg fl

  -- Ticks one after the other, with all their alerts.
  unfoldable pub history : List Tick → WatchdogState → WatchdogState × List (Alert fl)
  history [] st = (st, [])
  history ((samples, ok, cfg) ∷ ticks) st =
      let (st1, alerts) = evaluate fl st samples ok cfg in
      let (st2, later) = history ticks st1 in (st2, alerts ++ later)

  history_from-Alternates :
      (ticks : List Tick) (st : WatchdogState) (k : Text)
      → IsUnique st
      → let r = history ticks st in Alternates (latch st k) (updown fl k r.1) (latch r.0 k)
  unfolding history
  history_from-Alternates [] st k u = refl
  history_from-Alternates ((samples, ok, cfg) ∷ ticks) st k u =
      let r = evaluate fl st samples ok cfg in
      let (here, u') = evaluate-Alternates st samples ok cfg k u in
      let later = history ticks r.0 in
      subst (λ x. Alternates (latch st k) x (latch later.0 k))
        (sym (updown-append fl k r.1 later.1))
        (Alternates-append (updown fl k r.1) (updown fl k later.1) (latch st k) (latch r.0 k)
          (latch later.0 k) here (history_from-Alternates ticks r.0 k u'))

  -- Over any ticks from the empty state, with any samples, listings and settings, the down and
  -- recovered alerts of a server alternate, the first of them a down; its latch is set in the end
  -- if the last of them is a down.
  pub history-Alternates :
      (ticks : List Tick) (k : Text)
      → let r = history ticks [] in Alternates false (updown fl k r.1) (latch r.0 k)
  unfolding lookup
  history-Alternates ticks k = history_from-Alternates ticks [] k tt
