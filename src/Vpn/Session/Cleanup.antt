-- ===== src/Vpn/Session/Cleanup.antt =====
-- Every failure edge of `connect` destroys what the attempt created.
use vpn_password_manager.Base.{
  ℕ, zero, suc, Text, Bool, true, false, List, [], ◌∷◌, ◌++◌, Option, none, some, ◌≡◌, refl, ap,
  ◌∙◌, inl, inr, ◌⊎◌, if◌then◌else◌, arith,
}
use vpn_password_manager.Error.{CoreError, Result, ok, err, Result-cases}
use vpn_password_manager.Cloud.Provider.{Instance, InstanceSpec}
use vpn_password_manager.Vpn.Effects.{
  ConnectDeps, State, M, ◌>>=◌, ◌>>◌, lift, call, emit, ignore, create_instance, set_created,
  delete_instance, Event, created, delete_asked, emitted, failed, destroying, disconnecting, idle,
  creations, deletions, IsQuiet, quiet_rules, create_instance_cases, ConnectState,
}
use vpn_password_manager.Vpn.Session.{
  Draws, Connection, wait_for_boot, bring_up, connect_inner, destroy_created, conclude, connect,
  disconnect, stage_of, spec_for,
}

IsQuiet-if :
    {W A : Type 0} (b : Bool) (m n : M W A) → IsQuiet m → IsQuiet n → IsQuiet (if b then m else n)
IsQuiet-if true m n p q = p
IsQuiet-if false m n p q = q

module _ {W : Type 0} (deps : ConnectDeps W) where
  IsQuiet-wait_for_boot :
      (polls : ℕ) (id : Text) (i : Instance) → IsQuiet (wait_for_boot deps polls id i)
  unfolding wait_for_boot
  IsQuiet-wait_for_boot zero id i = search quiet_rules
  IsQuiet-wait_for_boot (suc polls) id i =
      let again = IsQuiet-wait_for_boot polls id i in search (quiet_rules, IsQuiet-if)

  IsQuiet-bring_up : (d : Draws) (ips : List Text) (i : Instance) → IsQuiet (bring_up deps d ips i)
  unfolding bring_up
  IsQuiet-bring_up d ips i = search (quiet_rules, IsQuiet-if, IsQuiet-wait_for_boot) depth 20

-- The id of the created instance, as the list of what the attempt owns.
abbrev pub owned : Option Text → List Text
owned none = []
owned (some id) = id ∷ []

-- An attempt has created what it owns, and asked for no deletion yet.
record Attempted {W : Type 0} (s t : State W) : Type 0 where
  made : creations t.trace ≡ owned t.created_id ++ creations s.trace
  kept : deletions t.trace ≡ deletions s.trace

module _ {W : Type 0} (deps : ConnectDeps W) (d : Draws) (ips : List Text) where
  -- The attempt from the creation on.
  abbrev create_and_go : InstanceSpec → M W Connection
  create_and_go spec =
      create_instance deps.cloud spec >>= λ i. (set_created i.id >> bring_up deps d ips i)

  HasCreated : State W → Result CoreError Connection × State W → Type 0
  HasCreated s x =
      Attempted s x.1 × ((c : Connection) → x.0 ≡ ok c → (id : Text) × (x.1.created_id ≡ some id))

  HasCreated-create :
      (spec : InstanceSpec) (s : State W)
      → s.created_id ≡ none
      → HasCreated s (create_and_go spec s)
  unfolding ◌>>=◌ HasCreated set_created
  HasCreated-create spec s n = elim (create_instance_cases deps.cloud spec s) [
    | inl (e, w, p) ↦ rw (p, ◌>>=◌) (record { made = ground arith; kept = refl }, λ c q. cc)
    | inr (i, w, p) ↦
        let t : State W = record s {
          world = w;
          trace = created i.id ∷ s.trace;
          created_id = some i.id;
        } in
        let q = (IsQuiet-bring_up deps d ips i).at t in
        rw (p, ◌>>=◌)
          (
            record { made = ground (arith, q.creations_eq, q.created_eq); kept = q.deletions_eq },
            λ c r. (i.id, q.created_eq),
          )
  ]

  HasCreated-lift :
      {A : Type 0} (r : Result CoreError A) (f : A → M W Connection) (s : State W)
      → s.created_id ≡ none
      → ((a : A) → HasCreated s (f a s))
      → HasCreated s ((lift r >>= f) s)
  unfolding ◌>>=◌ lift HasCreated
  HasCreated-lift (ok a) f s n h = h a
  HasCreated-lift (err e) f s n h = (record { made = ground arith; kept = refl }, λ c p. cc)

  HasCreated-emit :
      (c : ConnectState) (m : M W Connection) (s : State W)
      → HasCreated
          (record s { trace = emitted c ∷ s.trace })
          (m (record s { trace = emitted c ∷ s.trace }))
      → HasCreated s ((emit c >> m) s)
  unfolding ◌>>=◌ emit HasCreated
  HasCreated-emit c m s (a, f) = (record { made = a.made; kept = a.kept }, f)

  HasCreated-connect_inner :
      (region instance_type : Text) (s : State W)
      → s.created_id ≡ none
      → HasCreated s (connect_inner deps d region instance_type ips s)
  unfolding connect_inner
  HasCreated-connect_inner region instance_type s n = HasCreated-lift _ _ s n λ cloud_init.
      HasCreated-emit _ _ s (HasCreated-create (spec_for region instance_type cloud_init) _ n)

  conclude_err :
      (o : Option Text) (c : ConnectState) (t : State W)
      → let u = ((destroy_created deps o >> emit c) t).1 in
        (deletions u.trace ≡ owned o ++ deletions t.trace)
        × (creations u.trace ≡ creations t.trace)
        × ((rest : List Event) × (u.trace ≡ emitted c ∷ rest))
  unfolding destroy_created ◌>>=◌ lift emit ignore delete_instance
  conclude_err none c t = (refl, refl, (t.trace, refl))
  conclude_err (some id) c t = (refl, refl, (delete_asked id ∷ emitted destroying ∷ t.trace, refl))

-- How an attempt ends that started with this trace.
pub data Ends (W : Type 0) (trace : List Event) (r : Result CoreError Connection) (t : State W)
    : Type 0 where
  failure :
      (e : CoreError) (ids : List Text) (rest : List Event)
      → r ≡ err e
      → creations t.trace ≡ ids ++ creations trace
      → deletions t.trace ≡ ids ++ deletions trace
      → t.trace ≡ emitted (failed (stage_of e) e) ∷ rest
      → Ends W trace r t
  success :
      (c : Connection) (id : Text)
      → r ≡ ok c
      → creations t.trace ≡ id ∷ creations trace
      → deletions t.trace ≡ deletions trace
      → Ends W trace r t

module _ {W : Type 0} (deps : ConnectDeps W) (d : Draws) (ips : List Text) where
  conclude-Ends :
      (s : State W) (x : Result CoreError Connection × State W)
      → HasCreated deps d ips s x
      → Ends W s.trace (conclude deps x).0 (conclude deps x).1
  unfolding HasCreated conclude
  conclude-Ends s (ok c, t) (a, f) =
      let (id, p) = f c refl in success c id refl (ground (arith, a.made)) a.kept
  conclude-Ends s (err e, t) (a, f) =
      let (del, cre, (rest, last)) =
        conclude_err deps d ips t.created_id (failed (stage_of e) e) t in
      failure e (owned t.created_id) rest refl (cre ∙ a.made)
        (del ∙ ap (λ x. owned t.created_id ++ x) a.kept) last

  -- However the provider, the tunnel and the callback behave, an attempt that fails has asked for
  -- the deletion of exactly the instances that it created, and emits the failure last; an attempt
  -- that succeeds has created one instance and asked for no deletion.
  pub connect-Ends :
      (region instance_type : Text) (s : State W)
      → Ends W s.trace
          (connect deps d region instance_type ips s).0
          (connect deps d region instance_type ips s).1
  unfolding connect
  connect-Ends region instance_type s =
      let start : State W = record s { created_id = none } in
      conclude-Ends start _ (HasCreated-connect_inner deps d ips region instance_type start refl)

module _ {W : Type 0} (deps : ConnectDeps W) where
  -- A disconnect emits that it disconnects and that it destroys, and asks for the deletion of the
  -- instance whether or not the tunnel comes down; it emits the idle state, and returns without
  -- an error, exactly when the deletion succeeds.
  pub disconnect_lem :
      (id : Text) (s : State W)
      → let w = (deps.down s.world).1 in
        let asked = delete_asked id ∷ emitted destroying ∷ emitted disconnecting ∷ s.trace in
        ((e : CoreError) × ((deps.cloud.delete id w).0 ≡ err e)
          × ((disconnect deps id s).0 ≡ err e)
          × ((disconnect deps id s).1.trace ≡ asked))
        ⊎ (((deps.cloud.delete id w).0 ≡ ok tt)
            × ((disconnect deps id s).0 ≡ ok tt)
            × ((disconnect deps id s).1.trace ≡ emitted idle ∷ asked))
  unfolding disconnect ◌>>=◌ emit ignore call delete_instance
  disconnect_lem id s = elim (Result-cases (deps.cloud.delete id (deps.down s.world).1).0) [
    | inl (e, p) ↦ inl (e, p, rw p, rw p)
    | inr (a, p) ↦ inr (p, rw p, rw p)
  ]
