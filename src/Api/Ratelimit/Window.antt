-- ===== src/Api/Ratelimit/Window.antt =====
-- The limiter forgets old hits, and yet answers as one that remembers all.
use vpn_password_manager.Base.{
  ℕ, ◌≤◌, Text, text_eq, text_eq_iff, text_eq_refl, Bool, true, false, List, [], ◌∷◌, ◌++◌, ◌≡◌,
  refl, sym, ap, ◌∙◌, subst, length, ltb, leb, retain, if◌then◌else◌, Bool-cases, inl, inr, arith,
  append-nil,
}
use vpn_password_manager.Base.Assoc.{lookup, insert, lookup-insert}
use vpn_password_manager.Api.Ratelimit.{RateLimiter, hits_of, is_recent, check}

retain-append :
    {A : Type 0} (p : A → Bool) (xs ys : List A) → retain p (xs ++ ys) ≡ retain p xs ++ retain p ys
retain-append p [] ys = refl
retain-append p (x ∷ xs) ys = ground (arith, retain-append p xs ys)

-- Keeping the recent after keeping those that were recent before.
retain-recent :
    (before now window : ℕ) (ts : List ℕ)
    → before ≤ now
    → retain (is_recent now window) (retain (is_recent before window) ts)
      ≡ retain (is_recent now window) ts
retain-recent before now window [] h = refl
retain-recent before now window (t ∷ ts) h = ground (arith, retain-recent before now window ts h)

-- A check: when, on which key, and how many hits it allows.
pub record Call : Type 0 where
  pub now : ℕ
  pub key : Text
  pub max : ℕ

-- Each key is always checked with its own window.
module _ (window : Text → ℕ) where
  -- All the hits that were let through, of all keys.
  abbrev pub Log : Type 0
  Log = List (Text × ℕ)

  abbrev pub times_of : Text → Log → List ℕ
  times_of k [] = []
  times_of k ((j, t) ∷ log) = let rest = times_of k log in if text_eq j k then t ∷ rest else rest

  times_of-append : (k : Text) (a b : Log) → times_of k (a ++ b) ≡ times_of k a ++ times_of k b
  times_of-append k [] b = refl
  times_of-append k ((j, t) ∷ a) b = ground (arith, times_of-append k a b)

  -- How many hits of the key were let through in the window that ends now.
  unfoldable pub recent : ℕ → Text → Log → ℕ
  recent now k log = length (retain (is_recent now (window k)) (times_of k log))

  -- The limiter that forgets nothing.
  unfoldable pub ideal_check : Call → Log → Bool × Log
  ideal_check c log =
      if ltb (recent c.now c.key log) c.max
      then (true, log ++ ((c.key, c.now) ∷ []))
      else (false, log)

  unfoldable pub ideal_run : List Call → Log → List Bool × Log
  ideal_run [] log = ([], log)
  ideal_run (c ∷ cs) log =
      let (b, log') = ideal_check c log in let (bs, log'') = ideal_run cs log' in (b ∷ bs, log'')

  unfoldable pub run : List Call → RateLimiter → List Bool × RateLimiter
  run [] rl = ([], rl)
  run (c ∷ cs) rl =
      let (b, rl') = check c.now c.key c.max (window c.key) rl in
      let (bs, rl'') = run cs rl' in (b ∷ bs, rl'')

  -- From this time on, both see the same recent hits.
  abbrev Agrees : ℕ → RateLimiter → Log → Type 0
  Agrees last rl log =
      (now : ℕ) (k : Text)
      → last ≤ now
      → retain (is_recent now (window k)) (hits_of k rl)
        ≡ retain (is_recent now (window k)) (times_of k log)

  hits_of-insert :
      (j k : Text) (ts : List ℕ) (rl : RateLimiter)
      → hits_of k (insert j ts rl) ≡ (if text_eq j k then ts else hits_of k rl)
  hits_of-insert j k ts rl = ground (arith, lookup-insert j k ts rl)

  module _ (c : Call) (last : ℕ) (rl : RateLimiter) (log : Log) (agrees : Agrees last rl log)
      (later : last ≤ c.now) where
    abbrev kept : List ℕ
    kept = retain (is_recent c.now (window c.key)) (hits_of c.key rl)

    length-kept : length kept ≡ recent c.now c.key log
    unfolding recent
    length-kept = ap length (agrees c.now c.key later)

    same_answer : (check c.now c.key c.max (window c.key) rl).0 ≡ (ideal_check c log).0
    unfolding check ideal_check
    same_answer = ground (arith, length-kept)

    -- What stands at each key after a check that adds these hits.
    Agrees-insert :
        (more : List ℕ) (log' : Log)
        → ((k : Text) → times_of k log' ≡ times_of k log ++ (if text_eq c.key k then more else []))
        → Agrees c.now (insert c.key (kept ++ more) rl) log'
    Agrees-insert more log' grown now k h = elim (Bool-cases (text_eq c.key k)) [
      | inl p ↦
          let same : c.key ≡ k = (text_eq_iff c.key k).0 p in
          subst
            (λ j.
              retain (is_recent now (window j)) (hits_of j (insert c.key (kept ++ more) rl))
              ≡ retain (is_recent now (window j)) (times_of j log'))
            same (own_hits now h)
      | inr p ↦
          let stored : hits_of k (insert c.key (kept ++ more) rl) ≡ hits_of k rl =
            hits_of-insert c.key k (kept ++ more) rl
            ∙ ap (λ b. if b then kept ++ more else hits_of k rl) p in
          let log_same : times_of k log' ≡ times_of k log =
            grown k
            ∙ ap (λ b. times_of k log ++ (if b then more else [])) p
            ∙ append-nil (times_of k log) in
          let r = is_recent now (window k) in
          ap (retain r) stored ∙ agrees now k (omega arith) ∙ ap (retain r) (sym log_same)
    ]
      where
        own_hits :
            (now : ℕ)
            → c.now ≤ now
            → retain (is_recent now (window c.key)) (hits_of c.key (insert c.key (kept ++ more) rl))
              ≡ retain (is_recent now (window c.key)) (times_of c.key log')
        own_hits now h =
            let p = text_eq_refl c.key in
            let r = is_recent now (window c.key) in
            let stored : hits_of c.key (insert c.key (kept ++ more) rl) ≡ kept ++ more =
              hits_of-insert c.key c.key (kept ++ more) rl
              ∙ ap (λ b. if b then kept ++ more else hits_of c.key rl) p in
            let log_grown : times_of c.key log' ≡ times_of c.key log ++ more =
              grown c.key ∙ ap (λ b. times_of c.key log ++ (if b then more else [])) p in
            ap (retain r) stored
            ∙ retain-append r kept more
            ∙ ap (λ x. x ++ retain r more)
                (retain-recent c.now now (window c.key) (hits_of c.key rl) h
                  ∙ agrees now c.key (omega arith))
            ∙ sym (retain-append r (times_of c.key log) more)
            ∙ ap (retain r) (sym log_grown)

    denied :
        leb c.max (length kept) ≡ true
        → ((check c.now c.key c.max (window c.key) rl).1 ≡ insert c.key (kept ++ []) rl)
          × ((ideal_check c log).1 ≡ log)
    unfolding check ideal_check
    denied p = (rw (p, append-nil kept) refl, ground (arith, p, length-kept))

    allowed :
        leb c.max (length kept) ≡ false
        → ((check c.now c.key c.max (window c.key) rl).1 ≡ insert c.key (kept ++ (c.now ∷ [])) rl)
          × ((ideal_check c log).1 ≡ log ++ ((c.key, c.now) ∷ []))
    unfolding check ideal_check
    allowed p = (rw p refl, ground (arith, p, length-kept))

    check-Agrees : Agrees c.now (check c.now c.key c.max (window c.key) rl).1 (ideal_check c log).1
    check-Agrees = elim (Bool-cases (leb c.max (length kept))) [
      | inl p ↦
          rw ((denied p).0, (denied p).1)
            (Agrees-insert [] log (λ k. ground (arith, append-nil (times_of k log))))
      | inr p ↦
          rw ((allowed p).0, (allowed p).1)
            (Agrees-insert (c.now ∷ []) (log ++ ((c.key, c.now) ∷ []))
              (λ k. times_of-append k log ((c.key, c.now) ∷ [])))
    ]

  -- The clock never runs backwards.
  abbrev pub IsMonotone : ℕ → List Call → Type 0
  IsMonotone last [] = Unit
  IsMonotone last (c ∷ cs) = (last ≤ c.now) × IsMonotone c.now cs

  run_from :
      (cs : List Call) (last : ℕ) (rl : RateLimiter) (log : Log)
      → Agrees last rl log
      → IsMonotone last cs
      → (run cs rl).0 ≡ (ideal_run cs log).0
  unfolding run ideal_run
  run_from [] last rl log agrees m = refl
  run_from (c ∷ cs) last rl log agrees m =
      let rl' = (check c.now c.key c.max (window c.key) rl).1 in
      let log' = (ideal_check c log).1 in
      let rest : (run cs rl').0 ≡ (ideal_run cs log').0 =
        run_from cs c.now rl' log' (check-Agrees c last rl log agrees m.0) m.1 in
      rw (same_answer c last rl log agrees m.0, rest) refl

  -- Started empty, with a clock that never runs backwards and one window for each key, the limiter
  -- answers every check as one that keeps all hits for ever and lets a hit through exactly when
  -- fewer than the maximum of its key's were let through in the window that ends there.
  pub run-ideal_run : (cs : List Call) → IsMonotone 0 cs → (run cs []).0 ≡ (ideal_run cs []).0
  unfolding lookup
  run-ideal_run cs m = run_from cs 0 [] [] (λ now k h. refl) m
