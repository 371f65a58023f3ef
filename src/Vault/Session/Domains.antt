-- ===== src/Vault/Session/Domains.antt =====
-- The registrable domain is the end of the host, behind a dot, and stands for itself.
use vpn_password_manager.Base.{
  ℕ, ◌==◌, Text, text_eq, true, false, List, [], ◌∷◌, ◌++◌, ◌≡◌, refl, sym, ap, subst, ◌∙◌, reverse,
  reverse-append, reverse-reverse, append_assoc, any, All, inl, inr, ◌⊎◌, arith, Bool-cases,
}
use vpn_password_manager.Base.Format.{join}
use vpn_password_manager.Vault.Session.{
  split, with_head, dotted, two_label_suffixes, registrable_of, registrable_domain,
}

-- A label has no dot.
abbrev IsLabel : Text → Type 0
IsLabel t = All (λ c. (c == b'.') ≡ false) t

dots : List Text → Text
dots labels = join (b'.' ∷ []) labels

dots-cons : (x y : Text) (ys : List Text) → dots (x ∷ y ∷ ys) ≡ dotted x (dots (y ∷ ys))
unfolding dots join
dots-cons x y ys = refl

split_not_nil : (s : Text) → (p : Text) × (ps : List Text) × (split b'.' s ≡ p ∷ ps)
unfolding split
split_not_nil [] = ([], [], refl)
split_not_nil (c ∷ s) =
    let (p, ps, e) = split_not_nil s in
    elim (Bool-cases (c == b'.')) [
      | inl q ↦ ([], split b'.' s, rw q refl)
      | inr q ↦ (c ∷ p, ps, rw (q, e) (unfold with_head in refl))
    ]

dots-with_head :
    (c : ℕ) (p : Text) (ps : List Text) → dots (with_head c (p ∷ ps)) ≡ c ∷ dots (p ∷ ps)
unfolding dots join with_head
dots-with_head c p [] = refl
dots-with_head c p (q ∷ ps) = refl

dots-split : (s : Text) → dots (split b'.' s) ≡ s
unfolding split
dots-split [] = unfold dots join in refl
dots-split (c ∷ s) =
    let (p, ps, e) = split_not_nil s in
    let ih = dots-split s in
    elim (Bool-cases (c == b'.')) [
      | inl q ↦
          let dot : b'.' ≡ c = ground (arith, q) in
          rw (q, e) (dots-cons [] p ps ∙ (ap (λ x. b'.' ∷ x) (rw e at ih) ∙ ap (λ x. x ∷ s) dot))
      | inr q ↦ rw (q, e) (dots-with_head c p ps ∙ ap (λ x. c ∷ x) (rw e at ih))
    ]

split-label : (x : Text) → IsLabel x → split b'.' x ≡ x ∷ []
unfolding split with_head
split-label [] l = refl
split-label (c ∷ x) l = rw (l.0, split-label x l.1) refl

split-dotted : (x s : Text) → IsLabel x → split b'.' (dotted x s) ≡ x ∷ split b'.' s
unfolding split with_head
split-dotted [] s l = refl
split-dotted (c ∷ x) s l = rw (l.0, split-dotted x s l.1) refl

with_head-All :
    (c : ℕ) (ps : List Text) → (c == b'.') ≡ false → All IsLabel ps → All IsLabel (with_head c ps)
unfolding with_head
with_head-All c [] h a = ((h, tt), tt)
with_head-All c (p ∷ ps) h a = ((h, a.0), a.1)

split-All : (s : Text) → All IsLabel (split b'.' s)
unfolding split
split-All [] = (tt, tt)
split-All (c ∷ s) =
    let ih = split-All s in
    elim (Bool-cases (c == b'.')) [
      | inl q ↦ rw q (tt, ih)
      | inr q ↦ rw q (with_head-All c (split b'.' s) q ih)
    ]

-- A name is the end of a host: all of it, or what stands behind a dot.
abbrev pub IsEnd : Text → Text → Type 0
IsEnd d host = (host ≡ d) ⊎ ((front : Text) × (host ≡ dotted front d))

dots-append :
    (xs : List Text) (b : Text) (bs : List Text) → IsEnd (dots (b ∷ bs)) (dots (xs ++ (b ∷ bs)))
dots-append [] b bs = inl refl
dots-append (x ∷ []) b bs = inr (x, dots-cons x b bs)
dots-append (x ∷ y ∷ xs) b bs = elim (dots-append (y ∷ xs) b bs) [
  | inl e ↦ inr (x, dots-cons x y (xs ++ (b ∷ bs)) ∙ ap (dotted x) e)
  | inr (front, e) ↦ inr (
    dotted x front,
    dots-cons x y (xs ++ (b ∷ bs))
        ∙ ap (dotted x) e
        ∙ sym (append_assoc x (b'.' ∷ front) (b'.' ∷ dots (b ∷ bs))),
  )
]

All-append : (xs ys : List Text) → All IsLabel (xs ++ ys) → All IsLabel ys
All-append [] ys a = a
All-append (x ∷ xs) ys a = All-append xs ys a.1

-- How the registrable domain of a host comes about.
data Shape (host : Text) : Type 0 where
  itself : registrable_domain host ≡ host → Shape host
  last_two :
      (y z : Text)
      → IsLabel y
      → IsLabel z
      → IsEnd (dotted y z) host
      → registrable_domain host ≡ dotted y z
      → Shape host
  last_three :
      (x y z : Text)
      → IsLabel x
      → IsLabel y
      → IsLabel z
      → any (λ s. text_eq s (dotted y z)) two_label_suffixes ≡ true
      → IsEnd (dotted x (dotted y z)) host
      → registrable_domain host ≡ dotted x (dotted y z)
      → Shape host

IsEnd-three :
    (xs : List Text) (x y z : Text) → IsEnd (dotted x (dotted y z)) (dots (xs ++ (x ∷ y ∷ z ∷ [])))
unfolding dots join
IsEnd-three xs x y z = dots-append xs x (y ∷ z ∷ [])

IsEnd-two : (xs : List Text) (x y z : Text) → IsEnd (dotted y z) (dots (xs ++ (x ∷ y ∷ z ∷ [])))
unfolding dots join
IsEnd-two xs x y z =
    subst (λ l. IsEnd (dotted y z) (dots l)) (append_assoc xs (x ∷ []) (y ∷ z ∷ []))
      (dots-append (xs ++ (x ∷ [])) y (z ∷ []))

Shape-of : (host : Text) (labels : List Text) → reverse (split b'.' host) ≡ labels → Shape host
unfolding registrable_domain registrable_of
Shape-of host [] e = itself (rw e refl)
Shape-of host (z ∷ []) e = itself (rw e refl)
Shape-of host (z ∷ y ∷ []) e = itself (rw e refl)
Shape-of host (z ∷ y ∷ x ∷ rest) e =
    let back : split b'.' host ≡ reverse rest ++ (x ∷ y ∷ z ∷ []) =
      sym (reverse-reverse (split b'.' host))
      ∙ ap reverse e
      ∙ reverse-append (z ∷ y ∷ x ∷ []) rest in
    let all : All IsLabel (x ∷ y ∷ z ∷ []) =
      All-append (reverse rest) (x ∷ y ∷ z ∷ []) (subst (All IsLabel) back (split-All host)) in
    let named : dots (reverse rest ++ (x ∷ y ∷ z ∷ [])) ≡ host =
      ap dots (sym back) ∙ dots-split host in
    elim (Bool-cases (any (λ s. text_eq s (dotted y z)) two_label_suffixes)) [
      | inl p ↦
          last_three x y z all.0 all.1.0 all.1.1.0 p
            (subst (IsEnd (dotted x (dotted y z))) named (IsEnd-three (reverse rest) x y z))
            (rw (e, p) refl)
      | inr p ↦
          last_two y z all.1.0 all.1.1.0
            (subst (IsEnd (dotted y z)) named (IsEnd-two (reverse rest) x y z)) (rw (e, p) refl)
    ]

two_labels : (y z : Text) → IsLabel y → IsLabel z → registrable_domain (dotted y z) ≡ dotted y z
unfolding registrable_domain registrable_of
two_labels y z l m = rw (split-dotted y z l, split-label z m) refl

three_labels :
    (x y z : Text)
    → IsLabel x
    → IsLabel y
    → IsLabel z
    → any (λ s. text_eq s (dotted y z)) two_label_suffixes ≡ true
    → registrable_domain (dotted x (dotted y z)) ≡ dotted x (dotted y z)
unfolding registrable_domain registrable_of
three_labels x y z k l m p =
    rw (split-dotted x (dotted y z) k, split-dotted y z l, split-label z m, p) refl

-- The registrable domain of any host is the host itself or stands at its end behind a dot, and it
-- is its own registrable domain.
pub registrable_domain_lem :
    (host : Text)
    → IsEnd (registrable_domain host) host
      × (registrable_domain (registrable_domain host) ≡ registrable_domain host)
registrable_domain_lem host = elim (Shape-of host (reverse (split b'.' host)) refl) [
  | itself e ↦ (inl (sym e), ap registrable_domain e)
  | last_two y z l m i e ↦ (rw e i, rw e (two_labels y z l m))
  | last_three x y z k l m p i e ↦ (rw e i, rw e (three_labels x y z k l m p))
]
