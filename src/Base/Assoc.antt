-- ===== src/Base/Assoc.antt =====
-- Association lists keyed by text: the hash maps, and the tables with a primary key.
use Prim.Native.Nat.{suc}
use mathlib.Core.Path.{◌≡◌, refl, sym, ap}
use mathlib.Core.Logic.{inl, inr}
use mathlib.Core.List.{List, [], ◌∷◌, map}
use mathlib.Core.Option.{Option, none, some}
use native.Mathlib.Omega.{arith}
use vpn_password_manager.Base.Tests.{if◌then◌else◌}
use vpn_password_manager.Base.Lists.{length, In}
use vpn_password_manager.Base.Strings.{Text, text_eq, text_eq_iff, text_eq_refl}

abbrev pub Assoc {ℓ} : Type ℓ → Type ℓ
Assoc V = List (Text × V)

module _ {ℓ} {V : Type ℓ} where
  unfoldable pub lookup : Text → Assoc V → Option V
  lookup k [] = none
  lookup k ((j, v) ∷ m) = if text_eq j k then some v else lookup k m

  -- An entry that is there is replaced where it stands; a new one goes to the end.
  unfoldable pub insert : Text → V → Assoc V → Assoc V
  insert k v [] = (k, v) ∷ []
  insert k v ((j, w) ∷ m) = if text_eq j k then (k, v) ∷ m else (j, w) ∷ insert k v m

  unfoldable pub remove : Text → Assoc V → Assoc V
  remove k [] = []
  remove k ((j, w) ∷ m) = let rest = remove k m in if text_eq j k then rest else (j, w) ∷ rest

  pub lookup-insert :
      (k j : Text) (v : V) (m : Assoc V)
      → lookup j (insert k v m) ≡ (if text_eq k j then some v else lookup j m)
  unfolding lookup insert
  lookup-insert k j v [] = refl
  lookup-insert k j v ((i, w) ∷ m) =
      ground (arith, text_eq_iff k j, text_eq_iff i k, text_eq_iff i j, lookup-insert k j v m)

  pub lookup-remove :
      (k j : Text) (m : Assoc V)
      → lookup j (remove k m) ≡ (if text_eq k j then none else lookup j m)
  unfolding lookup remove
  lookup-remove k j [] = ground arith
  lookup-remove k j ((i, w) ∷ m) =
      ground (arith, text_eq_iff k j, text_eq_iff i k, text_eq_iff i j, lookup-remove k j m)

  pub length-insert :
      (k : Text) (v : V) (m : Assoc V)
      → length (insert k v m) ≡ elim (lookup k m) [ none ↦ suc (length m) | some w ↦ length m ]
  unfolding lookup insert
  length-insert k v [] = refl
  length-insert k v ((i, w) ∷ m) = ground (arith, length-insert k v m)

  -- No two entries have one key.
  abbrev pub IsUnique : Assoc V → Type ℓ
  IsUnique [] = Unit
  IsUnique ((j, v) ∷ m) = (lookup j m ≡ none) × IsUnique m

  pub insert-IsUnique : (k : Text) (v : V) (m : Assoc V) → IsUnique m → IsUnique (insert k v m)
  unfolding insert lookup
  insert-IsUnique k v [] u = (refl, tt)
  insert-IsUnique k v ((i, w) ∷ m) u =
      ground
        (arith, text_eq_iff i k, text_eq_iff k i, lookup-insert k i v m, insert-IsUnique k v m u.1)

  pub remove-IsUnique : (k : Text) (m : Assoc V) → IsUnique m → IsUnique (remove k m)
  unfolding remove lookup
  remove-IsUnique k [] u = tt
  remove-IsUnique k ((i, w) ∷ m) u = ground (arith, lookup-remove k i m, remove-IsUnique k m u.1)

  remove-absent : (k : Text) (m : Assoc V) → lookup k m ≡ none → remove k m ≡ m
  unfolding remove lookup
  remove-absent k [] h = refl
  remove-absent k ((i, w) ∷ m) h = ground (arith, remove-absent k m)

  pub length-remove :
      (k : Text) (m : Assoc V)
      → IsUnique m
      → elim (lookup k m) [ none ↦ length m | some w ↦ suc (length (remove k m)) ]
        ≡ elim (lookup k m) [ none ↦ length (remove k m) | some w ↦ length m ]
  unfolding lookup remove
  length-remove k [] u = refl
  length-remove k ((i, w) ∷ m) u =
      ground (arith, text_eq_iff i k, remove-absent k m, length-remove k m u.1)

pub ruleset assoc_laws = (lookup-insert, lookup-remove, text_eq_refl)

abbrev pub values : {V : Type 0} → Assoc V → List V
values m = map (λ e. e.1) m

pub lookup-In :
    {V : Type 0} (k : Text) (v : V) (m : Assoc V) → lookup k m ≡ some v → In v (values m)
unfolding lookup
lookup-In k v [] h = cc
lookup-In k v ((j, w) ∷ m) h = ground (arith, lookup-In k v m)

-- Where keys are unique, each value stands under some key.
pub In-lookup :
    {V : Type 0} (v : V) (m : Assoc V)
    → IsUnique m
    → In v (values m)
    → (k : Text) × (lookup k m ≡ some v)
unfolding lookup
In-lookup v [] u i = absurd i
In-lookup v ((j, w) ∷ m) u (inl e) = (j, rw (text_eq_refl j) (ap some (sym e)))
In-lookup v ((j, w) ∷ m) u (inr i) =
    let (k, p) = In-lookup v m u.1 i in (k, ground (arith, text_eq_iff j k, u.0, p))
