-- ===== src/Vault/Session/Sites.antt =====
-- What the code takes for the registrable domain of a host, in terms of the labels of the host.
use vpn_password_manager.Base.{
  ◌≤◌, Text, text_eq, false, List, [], ◌∷◌, ◌++◌, ◌≡◌, refl, sym, ap, subst, ◌∙◌, reverse,
  reverse-append, reverse-reverse, any, any_iff_In, In, inl, inr, ◌↔◌, arith, Bool-cases, length,
  length-reverse,
}
use vpn_password_manager.Vault.Session.{
  split, dotted, two_label_suffixes, registrable_of, registrable_domain,
}

-- A host of one or two labels stands for itself. Of more labels the last two count, or the last
-- three where the last two are one of the sixteen suffixes of the code's list.
pub data IsSite (host site : Text) : Type 0 where
  whole : length (split b'.' host) ≤ 2 → site ≡ host → IsSite host site
  last_two :
      (front : List Text) (x y z : Text)
      → split b'.' host ≡ front ++ (x ∷ y ∷ z ∷ [])
      → ¬ In (dotted y z) two_label_suffixes
      → site ≡ dotted y z
      → IsSite host site
  last_three :
      (front : List Text) (x y z : Text)
      → split b'.' host ≡ front ++ (x ∷ y ∷ z ∷ [])
      → In (dotted y z) two_label_suffixes
      → site ≡ dotted x (dotted y z)
      → IsSite host site

backwards :
    (front : List Text) (x y z : Text)
    → reverse (front ++ (x ∷ y ∷ z ∷ [])) ≡ z ∷ y ∷ x ∷ reverse front
backwards front x y z = reverse-append front (x ∷ y ∷ z ∷ [])

forwards :
    (labels rest : List Text) (x y z : Text)
    → reverse labels ≡ z ∷ y ∷ x ∷ rest
    → labels ≡ reverse rest ++ (x ∷ y ∷ z ∷ [])
forwards labels rest x y z e =
    sym (reverse-reverse labels) ∙ ap reverse e ∙ reverse-append (z ∷ y ∷ x ∷ []) rest

short :
    (labels back : List Text)
    → reverse labels ≡ back
    → length (reverse back) ≤ 2
    → length labels ≤ 2
short labels back e le = subst (λ l. length l ≤ 2) (ap reverse (sym e) ∙ reverse-reverse labels) le

site_of :
    (host : Text) (labels : List Text)
    → reverse (split b'.' host) ≡ labels
    → IsSite host (registrable_of host labels)
unfolding registrable_of
site_of host [] e = whole (short (split b'.' host) [] e (omega arith)) refl
site_of host (z ∷ []) e = whole (short (split b'.' host) (z ∷ []) e (omega arith)) refl
site_of host (z ∷ y ∷ []) e = whole (short (split b'.' host) (z ∷ y ∷ []) e (omega arith)) refl
site_of host (z ∷ y ∷ x ∷ rest) e =
    let named = forwards (split b'.' host) rest x y z e in
    elim (Bool-cases (any (λ s. text_eq s (dotted y z)) two_label_suffixes)) [
      | inl p ↦
          last_three (reverse rest) x y z named ((any_iff_In two_label_suffixes (dotted y z)).0 p)
            (rw p refl)
      | inr p ↦
          last_two (reverse rest) x y z named
            (λ i. cc ((any_iff_In two_label_suffixes (dotted y z)).1 i, p)) (rw p refl)
    ]

few : (host : Text) (labels : List Text) → length labels ≤ 2 → registrable_of host labels ≡ host
unfolding registrable_of
few host [] le = refl
few host (z ∷ []) le = refl
few host (z ∷ y ∷ []) le = refl
few host (z ∷ y ∷ x ∷ rest) le = absurd (omega (arith, le))

more :
    (host : Text) (front : List Text) (x y z : Text)
    → split b'.' host ≡ front ++ (x ∷ y ∷ z ∷ [])
    → registrable_domain host ≡ registrable_of host (z ∷ y ∷ x ∷ reverse front)
unfolding registrable_domain
more host front x y z named =
    ap (λ l. registrable_of host (reverse l)) named
    ∙ ap (registrable_of host) (backwards front x y z)

site_is : (host site : Text) → IsSite host site → registrable_domain host ≡ site
unfolding registrable_domain registrable_of
site_is host site (whole le e) =
    few host (reverse (split b'.' host)) (omega (arith, le, length-reverse (split b'.' host)))
    ∙ sym e
site_is host site (last_two front x y z named other e) =
    let no : any (λ s. text_eq s (dotted y z)) two_label_suffixes ≡ false =
      ground (arith, other, any_iff_In two_label_suffixes (dotted y z)) in
    more host front x y z named ∙ rw (no, e) refl
site_is host site (last_three front x y z named listed e) =
    let yes = (any_iff_In two_label_suffixes (dotted y z)).1 listed in
    more host front x y z named ∙ rw (yes, e) refl

-- The code's registrable domain of a host is the one that is described.
pub IsSite_iff : (host site : Text) → IsSite host site ↔ (registrable_domain host ≡ site)
unfolding registrable_domain
IsSite_iff host site = (site_is host site, λ e. subst (IsSite host) e (site_of host _ refl))
