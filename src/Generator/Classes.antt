-- ===== src/Generator/Classes.antt =====
-- A generated password has the length and the classes that were asked for.
use vpn_password_manager.Base.{
  ℕ, zero, suc, ◌-◌, ◌≤◌, ◌<◌, Text, Bool, true, false, List, [], ◌∷◌, ◌++◌, length, length-append,
  ltb, is_empty, In, All, ◌≡◌, refl, sym, ap, subst, ◌∙◌, inl, inr, ◌⊎◌, arith, Bool-cases,
}
use vpn_password_manager.Error.{ok, err, invalid}
use vpn_password_manager.Generator.{
  PasswordSpec, Rng, word_starts, push_class, classes, char_at, concat, one_of_each, fill, password,
}

In-char_at : (i : ℕ) (s : Text) → i < length s → In (char_at i s) s
In-char_at i [] h = absurd (omega arith)
In-char_at zero (c ∷ s) h = inl refl
In-char_at (suc i) (c ∷ s) h = inr (In-char_at i s (omega arith))

In-append_left : {A : Type 0} (x : A) (xs ys : List A) → In x xs → In x (xs ++ ys)
In-append_left x [] ys i = absurd i
In-append_left x (y ∷ xs) ys (inl e) = inl e
In-append_left x (y ∷ xs) ys (inr i) = inr (In-append_left x xs ys i)

In-append_right : {A : Type 0} (x : A) (xs ys : List A) → In x ys → In x (xs ++ ys)
In-append_right x [] ys i = i
In-append_right x (y ∷ xs) ys i = inr (In-append_right x xs ys i)

In-append_cases : {A : Type 0} (x : A) (xs ys : List A) → In x (xs ++ ys) → In x xs ⊎ In x ys
In-append_cases x [] ys i = inr i
In-append_cases x (y ∷ xs) ys (inl e) = inl (inl e)
In-append_cases x (y ∷ xs) ys (inr i) = elim (In-append_cases x xs ys i) [
  | inl j ↦ inl (inr j)
  | inr j ↦ inr j
]

-- The character belongs to one of the classes.
abbrev pub InSome : ℕ → List Text → Type 0
InSome c cs = (class : Text) × In class cs × In c class

In-concat : (c : ℕ) (cs : List Text) → In c (concat cs) → InSome c cs
In-concat c [] i = absurd i
In-concat c (s ∷ cs) i = elim (In-append_cases c s (concat cs) i) [
  | inl j ↦ (s, inl refl, j)
  | inr j ↦ let (t, k, l) = In-concat c cs j in (t, inr k, l)
]

-- Classes with a character each.
abbrev AllFull : List Text → Type 0
AllFull cs = All (λ class. 0 < length class) cs

All-append : (xs ys : List Text) → AllFull xs → AllFull ys → AllFull (xs ++ ys)
All-append [] ys a b = b
All-append (x ∷ xs) ys a b = (a.0, All-append xs ys a.1 b)

push_class-AllFull :
    (spec : PasswordSpec) (enabled : Bool) (base ambiguous : Text)
    → 0 < length base
    → AllFull (push_class spec enabled base ambiguous)
unfolding push_class
push_class-AllFull spec enabled base ambiguous h =
    ground (arith, length-append base (word_starts true ambiguous))

classes-AllFull : (spec : PasswordSpec) → AllFull (classes spec)
unfolding classes
classes-AllFull spec = All-append _ _ (push_class-AllFull spec spec.lower _ _ (omega arith)) (
    All-append _ _ (push_class-AllFull spec spec.upper _ _ (omega arith)) (
      All-append _ _ (push_class-AllFull spec spec.digits _ _ (omega arith))
        (push_class-AllFull spec spec.symbols _ _ (omega arith))))

length-concat : (cs : List Text) → AllFull cs → is_empty cs ≡ false → 0 < length (concat cs)
length-concat [] a h = cc
length-concat (s ∷ cs) a h = omega (arith, a.0, length-append s (concat cs))

module _ (rng : Rng) where
  length-one_of_each : (draw : ℕ) (cs : List Text) → length (one_of_each rng draw cs) ≡ length cs
  unfolding one_of_each
  length-one_of_each draw [] = refl
  length-one_of_each draw (class ∷ cs) = ap suc (length-one_of_each (suc draw) cs)

  length-fill : (draw n : ℕ) (union : Text) → length (fill rng draw n union) ≡ n
  unfolding fill
  length-fill draw zero union = refl
  length-fill draw (suc n) union = ap suc (length-fill (suc draw) n union)

  In-fill :
      (draw n : ℕ) (union : Text) (c : ℕ)
      → 0 < length union
      → In c (fill rng draw n union)
      → In c union
  unfolding fill
  In-fill draw zero union c h i = absurd i
  In-fill draw (suc n) union c h (inl e) =
      subst (λ x. In x union) (sym e) (In-char_at _ union (rng.gen_range_lt draw (length union) h))
  In-fill draw (suc n) union c h (inr i) = In-fill (suc draw) n union c h i

  -- Each class gives a character, and no other gives one.
  one_of_each_covers :
      (draw : ℕ) (cs : List Text) (class : Text)
      → AllFull cs
      → In class cs
      → (c : ℕ) × In c class × In c (one_of_each rng draw cs)
  unfolding one_of_each
  one_of_each_covers draw [] class a i = absurd i
  one_of_each_covers draw (x ∷ cs) class a (inl e) =
      let drawn = char_at (rng.gen_range draw (length x)) x in
      (
        drawn,
        subst (In drawn) (sym e) (In-char_at _ x (rng.gen_range_lt draw (length x) a.0)),
        inl refl,
      )
  one_of_each_covers draw (x ∷ cs) class a (inr i) =
      let (c, p, q) = one_of_each_covers (suc draw) cs class a.1 i in (c, p, inr q)

  In-one_of_each :
      (draw : ℕ) (cs : List Text) (c : ℕ)
      → AllFull cs
      → In c (one_of_each rng draw cs)
      → InSome c cs
  unfolding one_of_each
  In-one_of_each draw [] c a i = absurd i
  In-one_of_each draw (x ∷ cs) c a (inl e) = (
    x,
    inl refl,
    subst (λ d. In d x) (sym e) (In-char_at _ x (rng.gen_range_lt draw (length x) a.0)),
  )
  In-one_of_each draw (x ∷ cs) c a (inr i) =
      let (t, k, l) = In-one_of_each (suc draw) cs c a.1 i in (t, inr k, l)

  -- What a password keeps of its specification.
  pub record Meets (spec : PasswordSpec) (pw : Text) : Type 0 where
    pub right_length : length pw ≡ spec.length_wanted
    pub has_each : (class : Text) → In class (classes spec) → (c : ℕ) × In c class × In c pw
    pub has_only : (c : ℕ) → In c pw → InSome c (classes spec)

  -- The generator fails exactly when no class is enabled or the length is less than the number of
  -- the classes; otherwise the password has the length of the specification, a character of every
  -- enabled class, and none that is in no enabled class.
  pub password-Meets :
      (spec : PasswordSpec)
      → (((is_empty (classes spec) ≡ true) ⊎ (spec.length_wanted < length (classes spec)))
          × (password rng spec ≡ err invalid))
        ⊎ ((length (classes spec) ≤ spec.length_wanted)
            × (pw : Text) × (password rng spec ≡ ok pw)
            × Meets spec pw)
  unfolding password
  password-Meets spec =
      let cs = classes spec in
      let full = classes-AllFull spec in
      let first = one_of_each rng 0 cs in
      let more = fill rng (length cs) (spec.length_wanted - length cs) (concat cs) in
      elim (Bool-cases (is_empty cs)) [
        | inl p ↦ inl (inl p, rw p refl)
        | inr p ↦ elim (Bool-cases (ltb spec.length_wanted (length cs))) [
          | inl q ↦ inl (inr (ground (arith, q)), rw (p, q) refl)
          | inr q ↦
              let enough : length cs ≤ spec.length_wanted = ground (arith, q) in
              let union_full = length-concat cs full p in
              inr (
                enough,
                rng.shuffle (first ++ more),
                rw (p, q) refl,
                record {
                  right_length =
                      rng.length_shuffle (first ++ more)
                      ∙ omega (
                        arith,
                        length-append first more,
                        length-one_of_each 0 cs,
                        length-fill (length cs) (spec.length_wanted - length cs) (concat cs),
                        enough,
                      );
                  has_each = λ class i.
                      let (c, k, l) = one_of_each_covers 0 cs class full i in
                      (c, k, (rng.in_shuffle c (first ++ more)).1 (In-append_left c first more l));
                  has_only = λ c i.
                      elim (In-append_cases c first more ((rng.in_shuffle c (first ++ more)).0 i)) [
                        | inl j ↦ In-one_of_each 0 cs c full j
                        | inr j ↦ In-concat c cs (In-fill (length cs) _ (concat cs) c union_full j)
                      ];
                },
              )
        ]
      ]
