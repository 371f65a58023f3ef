-- ===== src/Vpn/Effects.antt =====
-- The effects of a connect attempt: calls of the provider, the tunnel and the callback, and the
-- states that are emitted. They act on a world of any type; the trace records, newest first, the
-- instances created, the deletions asked for and the states emitted.
use vpn_password_manager.Base.{
  ℕ, String, Text, List, [], ◌∷◌, Option, some, ◌≡◌, refl, ◌∙◌, ◌⊎◌, inl, inr,
}
use vpn_password_manager.Error.{CoreError, Result, ok, err}
use vpn_password_manager.Cloud.Provider.{CloudProvider, Instance, InstanceSpec}
use vpn_password_manager.Wg.{ClientConf}

-- crates/core/src/vpn/session.rs, `ConnectState`; a reason is the error that it prints.
pub data ConnectState : Type 0 where
  idle creating_instance booting exchanging_keys starting_tunnel : ConnectState
  connected : Text → Option Text → ConnectState
  disconnecting destroying : ConnectState
  failed : String → CoreError → ConnectState

-- The arguments of `CloudInitParams::single` that vary between attempts.
pub record CloudInitParams : Type 0 where
  pub server_private_key : Text
  pub client_public_key : Text
  pub callback_token : Text
  pub callback_hmac_key : Text

-- What a connect attempt depends on.
pub record ConnectDeps (W : Type 0) : Type 0 where
  pub cloud : CloudProvider W
  pub fetch : Text → Text → Text → W → Result CoreError Text × W
  pub up : ClientConf → W → Result CoreError (Unit {0}) × W
  pub down : W → Result CoreError (Unit {0}) × W
  pub render_base64 : CloudInitParams → Result CoreError Text
  pub max_boot_polls : ℕ

pub data Event : Type 0 where
  created : Text → Event
  delete_asked : Text → Event
  emitted : ConnectState → Event

abbrev pub creations : List Event → List Text
creations [] = []
creations (created id ∷ t) = id ∷ creations t
creations (e ∷ t) = creations t

abbrev pub deletions : List Event → List Text
deletions [] = []
deletions (delete_asked id ∷ t) = id ∷ deletions t
deletions (e ∷ t) = deletions t

-- `created` is the `&mut Option<String>` of `connect_inner`.
pub record State (W : Type 0) : Type 0 where
  pub world : W
  pub trace : List Event
  pub created_id : Option Text

abbrev pub M : Type 0 → Type 0 → Type 0
M W A = State W → Result CoreError A × State W

module _ {W : Type 0} {A B : Type 0} where
  continue : Result CoreError A → (A → M W B) → M W B
  continue (ok a) f s = f a s
  continue (err e) f s = (err e, s)

  infixl 5 ◌>>=◌ ◌>>◌
  unfoldable pub ◌>>=◌ : M W A → (A → M W B) → M W B
  unfolding continue
  ◌>>=◌ m f s = let (r, s') = m s in continue r f s'

  abbrev pub ◌>>◌ : M W A → M W B → M W B
  m >> n = m >>= λ _. n

module _ {W : Type 0} {A : Type 0} where
  unfoldable pub lift : Result CoreError A → M W A
  lift r s = (r, s)

  -- A call that acts on the world alone.
  unfoldable pub call : (W → Result CoreError A × W) → M W A
  call f s = let (r, w) = f s.world in (r, record s { world = w })

  -- `let _ = m`: the result is dropped.
  unfoldable pub ignore : M W A → M W (Unit {0})
  ignore m s = (ok tt, (m s).1)

module _ {W : Type 0} where
  unfoldable pub emit : ConnectState → M W (Unit {0})
  emit c s = (ok tt, record s { trace = emitted c ∷ s.trace })

  note_created : Result CoreError Instance → W → State W → Result CoreError Instance × State W
  note_created (err e) w s = (err e, record s { world = w })
  note_created (ok i) w s = (ok i, record s { world = w; trace = created i.id ∷ s.trace })

  -- `cloud.create`, which records the instance if it succeeds.
  unfoldable pub create_instance : CloudProvider W → InstanceSpec → M W Instance
  unfolding note_created
  create_instance cloud spec s = let (r, w) = cloud.create spec s.world in note_created r w s

  note_created_cases :
      (r : Result CoreError Instance) (w : W) (s : State W)
      → ((e : CoreError) × (note_created r w s ≡ (err e, record s { world = w })))
        ⊎ ((i : Instance) × (note_created r w s
              ≡ (ok i, record s { world = w; trace = created i.id ∷ s.trace })))
  unfolding note_created
  note_created_cases (err e) w s = inl (e, refl)
  note_created_cases (ok i) w s = inr (i, refl)

  pub create_instance_cases :
      (cloud : CloudProvider W) (spec : InstanceSpec) (s : State W)
      → ((e : CoreError) × (w : W) × (create_instance cloud spec s
            ≡ (err e, record s { world = w })))
        ⊎ ((i : Instance) × (w : W) × (create_instance cloud spec s
              ≡ (ok i, record s { world = w; trace = created i.id ∷ s.trace })))
  unfolding create_instance
  create_instance_cases cloud spec s =
      let (r, w) = cloud.create spec s.world in
      elim (note_created_cases r w s) [ inl (e, p) ↦ inl (e, w, p) | inr (i, p) ↦ inr (i, w, p) ]

  -- `*created = Some(id)`.
  unfoldable pub set_created : Text → M W (Unit {0})
  set_created id s = (ok tt, record s { created_id = some id })

  unfoldable pub delete_instance : CloudProvider W → Text → M W (Unit {0})
  delete_instance cloud id s =
      let (r, w) = cloud.delete id s.world in
      (r, record s { world = w; trace = delete_asked id ∷ s.trace })

-- A step that creates nothing, deletes nothing and leaves the created id alone.
pub record SameNodes {W : Type 0} (s t : State W) : Type 0 where
  pub creations_eq : creations t.trace ≡ creations s.trace
  pub deletions_eq : deletions t.trace ≡ deletions s.trace
  pub created_eq : t.created_id ≡ s.created_id

pub record IsQuiet {W A : Type 0} (m : M W A) : Type 0 where
  pub at : (s : State W) → SameNodes s (m s).1

pub SameNodes-trans : {W : Type 0} {s t u : State W} → SameNodes s t → SameNodes t u → SameNodes s u
SameNodes-trans p q = record {
  creations_eq = q.creations_eq ∙ p.creations_eq;
  deletions_eq = q.deletions_eq ∙ p.deletions_eq;
  created_eq = q.created_eq ∙ p.created_eq;
}

module _ {W A B : Type 0} where
  continue-SameNodes :
      (r : Result CoreError A) (f : A → M W B) (s : State W)
      → ((a : A) → IsQuiet (f a))
      → SameNodes s (continue r f s).1
  unfolding continue
  continue-SameNodes (ok a) f s q = (q a).at s
  continue-SameNodes (err e) f s q = record {
    creations_eq = refl;
    deletions_eq = refl;
    created_eq = refl;
  }

  pub IsQuiet-bind :
      (m : M W A) (f : A → M W B) → IsQuiet m → ((a : A) → IsQuiet (f a)) → IsQuiet (m >>= f)
  unfolding ◌>>=◌
  IsQuiet-bind m f p q = record {
    at = λ s. SameNodes-trans (p.at s) (continue-SameNodes (m s).0 f (m s).1 q);
  }

module _ {W A : Type 0} where
  pub IsQuiet-lift : (r : Result CoreError A) → IsQuiet (lift {W = W} r)
  unfolding lift
  IsQuiet-lift r = record {
    at = λ s. record { creations_eq = refl; deletions_eq = refl; created_eq = refl };
  }

  pub IsQuiet-call : (f : W → Result CoreError A × W) → IsQuiet (call f)
  unfolding call
  IsQuiet-call f = record {
    at = λ s. record { creations_eq = refl; deletions_eq = refl; created_eq = refl };
  }

pub IsQuiet-emit : {W : Type 0} (c : ConnectState) → IsQuiet (emit {W = W} c)
unfolding emit
IsQuiet-emit c = record {
  at = λ s. record { creations_eq = refl; deletions_eq = refl; created_eq = refl };
}

pub ruleset quiet_rules = (IsQuiet-bind, IsQuiet-lift, IsQuiet-call, IsQuiet-emit)
