-- ===== src/Base/Strings.antt =====
-- Text and bytes as lists of numbers: the code points of a `String`, the values of a `Vec<u8>`.
use Prim.Native.Nat.{ℕ}
use Prim.Native.Char.{code}
use Prim.Native.String.{String}
use mathlib.Core.Path.{◌≡◌, refl, sym}
use mathlib.Core.Logic.{◌↔◌, inl, inr}
use mathlib.Core.Bool.{Bool, true, false, ◌&&◌}
use mathlib.Core.List.{List, [], ◌∷◌}
use native.Mathlib.Omega.{arith}
use vpn_password_manager.Base.Tests.{◌==◌, Bool-cases}
use vpn_password_manager.Base.Lists.{any, In}

abbrev pub Text : Type 0
Text = List ℕ

abbrev pub codes : String → Text
codes String.[] = []
codes (String.◌∷◌ c s) = code c ∷ codes s

unfoldable pub text_eq : Text → Text → Bool
text_eq [] [] = true
text_eq [] (y ∷ ys) = false
text_eq (x ∷ xs) [] = false
text_eq (x ∷ xs) (y ∷ ys) = (x == y) && text_eq xs ys

text_eq→eq : (a b : Text) → text_eq a b ≡ true → a ≡ b
unfolding text_eq
text_eq→eq [] [] h = refl
text_eq→eq [] (y ∷ ys) h = cc
text_eq→eq (x ∷ xs) [] h = cc
text_eq→eq (x ∷ xs) (y ∷ ys) h = ground (arith, text_eq→eq xs ys)

pub text_eq_refl : (a : Text) → text_eq a a ≡ true
unfolding text_eq
text_eq_refl [] = refl
text_eq_refl (x ∷ xs) = ground (arith, text_eq_refl xs)

pub text_eq_iff : (a b : Text) → (text_eq a b ≡ true) ↔ (a ≡ b)
text_eq_iff a b = (text_eq→eq a b, λ e. rw e (text_eq_refl b))

any-In : (keep : List Text) (id : Text) → any (λ k. text_eq k id) keep ≡ true → In id keep
any-In [] id h = cc
any-In (k ∷ keep) id h = elim (Bool-cases (text_eq k id)) [
  | inl e ↦ inl (sym ((text_eq_iff k id).0 e))
  | inr e ↦ inr (any-In keep id (rw e at h))
]

In-any : (keep : List Text) (id : Text) → In id keep → any (λ k. text_eq k id) keep ≡ true
In-any [] id i = absurd i
In-any (k ∷ keep) id (inl e) = rw e (ground (arith, text_eq_refl k))
In-any (k ∷ keep) id (inr i) = ground (arith, In-any keep id i)

pub any_iff_In : (keep : List Text) (id : Text) → (any (λ k. text_eq k id) keep ≡ true) ↔ In id keep
any_iff_In keep id = (any-In keep id, In-any keep id)
