-- ===== src/Generator.antt =====
-- crates/core/src/generator/mod.rs: passwords from character classes. The random numbers and the
-- shuffle are those of a crate.
pub mod Classes
mod Tests
use vpn_password_manager.Base.{
  ℕ, zero, suc, ◌-◌, ◌<◌, Text, codes, Bool, true, false, not, List, [], ◌∷◌, ◌++◌, length, ltb,
  is_empty, if◌then◌else◌, In, ◌≡◌, ◌↔◌,
}
use vpn_password_manager.Base.Format.{is_whitespace}
use vpn_password_manager.Error.{CoreError, Result, ok, err, invalid}

pub record PasswordSpec : Type 0 where
  pub length_wanted : ℕ
  pub lower : Bool
  pub upper : Bool
  pub digits : Bool
  pub symbols : Bool
  pub exclude_ambiguous : Bool

abbrev pub default_spec : PasswordSpec
default_spec = record {
  length_wanted = 20;
  lower = true;
  upper = true;
  digits = true;
  symbols = true;
  exclude_ambiguous = false;
}

-- What the code relies on of the random source: a number below the bound at each draw, and a
-- shuffle that keeps the characters.
pub record Rng : Type 0 where
  pub gen_range : ℕ → ℕ → ℕ
  pub shuffle : Text → Text
  pub gen_range_lt : (draw bound : ℕ) → 0 < bound → gen_range draw bound < bound
  pub length_shuffle : (s : Text) → length (shuffle s) ≡ length s
  pub in_shuffle : (c : ℕ) (s : Text) → In c (shuffle s) ↔ In c s

abbrev lower_chars : Text
lower_chars = codes "abcdefghijkmnpqrstuvwxyz"

abbrev lower_ambig : Text
lower_ambig = codes "l o"

abbrev upper_chars : Text
upper_chars = codes "ABCDEFGHJKLMNPQRSTUVWXYZ"

abbrev upper_ambig : Text
upper_ambig = codes "I O"

abbrev digit_chars : Text
digit_chars = codes "23456789"

abbrev digit_ambig : Text
digit_ambig = codes "0 1"

abbrev symbol_chars : Text
symbol_chars = codes "!@#$%^&*()-_=+[]{};:,.?"

-- The first character of each word of `split_whitespace`; at a word's start or within it.
unfoldable pub word_starts : Bool → Text → Text
unfolding is_whitespace
word_starts fresh [] = []
word_starts fresh (c ∷ s) =
    let gap = word_starts true s in
    let word = word_starts false s in
    if is_whitespace c then gap else if fresh then c ∷ word else word

-- `push_class`, for a class that may be switched off.
unfoldable pub push_class : PasswordSpec → Bool → Text → Text → List Text
push_class spec enabled base ambiguous =
    if enabled
    then (if spec.exclude_ambiguous then base else base ++ word_starts true ambiguous) ∷ []
    else []

unfoldable pub classes : PasswordSpec → List Text
classes spec =
    push_class spec spec.lower lower_chars lower_ambig
    ++ (push_class spec spec.upper upper_chars upper_ambig
        ++ (push_class spec spec.digits digit_chars digit_ambig
            ++ push_class spec spec.symbols symbol_chars []))

-- `class[i]`, where the index is below the length.
abbrev pub char_at : ℕ → Text → ℕ
char_at i [] = 0
char_at zero (c ∷ s) = c
char_at (suc i) (c ∷ s) = char_at i s

abbrev pub concat : List Text → Text
concat [] = []
concat (s ∷ ss) = s ++ concat ss

module _ (rng : Rng) where
  -- One guaranteed character from each class; the draws are numbered.
  unfoldable pub one_of_each : ℕ → List Text → Text
  one_of_each draw [] = []
  one_of_each draw (class ∷ rest) =
      char_at (rng.gen_range draw (length class)) class ∷ one_of_each (suc draw) rest

  -- This many more from the union.
  unfoldable pub fill : ℕ → ℕ → Text → Text
  fill draw zero union = []
  fill draw (suc n) union =
      char_at (rng.gen_range draw (length union)) union ∷ fill (suc draw) n union

  unfoldable pub password : PasswordSpec → Result CoreError Text
  password spec =
      let cs = classes spec in
      if is_empty cs
      then err invalid
      else if ltb spec.length_wanted (length cs)
      then err invalid
      else ok (
          rng.shuffle
            (one_of_each 0 cs ++ fill (length cs) (spec.length_wanted - length cs) (concat cs)))
