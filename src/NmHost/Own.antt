-- ===== src/NmHost/Own.antt =====
-- Whose the user name and the password are among the fields that the host collects.
use vpn_password_manager.Base.{
  true, List, [], ◌∷◌, none, some, ◌≡◌, ap, subst, ◌∙◌, arith, Text, ◌⊎◌, inl, inr, Option-cases,
  Bool-cases, codes, text_eq,
}
use vpn_password_manager.Base.Assoc.{Assoc, lookup, insert, lookup-insert}
use vpn_password_manager.Vault.Model.{Item, username, password}
use vpn_password_manager.NmHost.Requests.{Crates, Draw, totp_code}
use vpn_password_manager.NmHost.Logins.{add_field, add_fields}

-- The user name and the password in the map are the item's own.
abbrev pub Own : Item → Assoc Text → Type 0
Own item out =
    ((u : Text) → lookup (codes "username") out ≡ some u → username item ≡ some u)
    × ((p : Text) → lookup (codes "password") out ≡ some p → password item ≡ some p)

pub nothing : (item : Item) → Own item []
unfolding lookup
nothing item = ((λ u e. cc), λ p e. cc)

at_insert :
    (key n v w : Text) (out : Assoc Text)
    → lookup key (insert n v out) ≡ some w
    → ((text_eq n key ≡ true) × (v ≡ w)) ⊎ (lookup key out ≡ some w)
at_insert key n v w out e = ground (arith, e, lookup-insert n key v out)

insert-Own :
    (item : Item) (n v : Text) (out : Assoc Text)
    → Own item out
    → (text_eq n (codes "username") ≡ true → username item ≡ some v)
    → (text_eq n (codes "password") ≡ true → password item ≡ some v)
    → Own item (insert n v out)
insert-Own item n v out (us, ps) is_user is_pass = (
  λ u e. elim (at_insert (codes "username") n v u out e) [
    | inl (q, same) ↦ is_user q ∙ ap some same
    | inr old ↦ us u old
  ],
  λ p e. elim (at_insert (codes "password") n v p out e) [
    | inl (q, same) ↦ is_pass q ∙ ap some same
    | inr old ↦ ps p old
  ],
)

module _ {Value : Type 0} (k : Crates Value) (d : Draw) where
  add_field-Own :
      (item : Item) (field : Text) (out next : Assoc Text)
      → Own item out
      → add_field k d.now item field out ≡ some next
      → Own item next
  unfolding add_field text_eq
  add_field-Own item field out next own e = elim (Bool-cases (text_eq field (codes "username"))) [
    | inl a ↦ elim (Option-cases (username item)) [
      | inl b ↦ subst (Own item) (ground (arith, e, a, b)) own
      | inr (u, b) ↦
          let now : insert (codes "username") u out ≡ next = ground (arith, e, a, b) in
          subst (Own item) now (insert-Own item (codes "username") u out own (λ q. b) λ q. cc)
    ]
    | inr a ↦ elim (Bool-cases (text_eq field (codes "password"))) [
      | inl b ↦ elim (Option-cases (password item)) [
        | inl c ↦ subst (Own item) (ground (arith, e, a, b, c)) own
        | inr (p, c) ↦
            let now : insert (codes "password") p out ≡ next = ground (arith, e, a, b, c) in
            subst (Own item) now (insert-Own item (codes "password") p out own (λ q. cc) λ q. c)
      ]
      | inr b ↦ elim (Bool-cases (text_eq field (codes "totp"))) [
        | inr c ↦ subst (Own item) (ground (arith, e, a, b, c)) own
        | inl c ↦ elim (Option-cases (totp_code k d.now item)) [
          | inl f ↦ absurd (ground (arith, e, a, b, c, f))
          | inr (none, f) ↦ subst (Own item) (ground (arith, e, a, b, c, f)) own
          | inr (some code, f) ↦
              let now : insert (codes "totp") code out ≡ next = ground (arith, e, a, b, c, f) in
              subst (Own item) now (insert-Own item (codes "totp") code out own (λ q. cc) λ q. cc)
        ]
      ]
    ]
  ]

  pub add_fields-Own :
      (item : Item) (names : List Text) (out last : Assoc Text)
      → Own item out
      → add_fields k d.now item names out ≡ some last
      → Own item last
  unfolding add_fields
  add_fields-Own item [] out last own e = subst (Own item) (ground (arith, e)) own
  add_fields-Own item (field ∷ names) out last own e =
      elim (Option-cases (add_field k d.now item field out)) [
        | inl p ↦ absurd (ground (arith, e, p))
        | inr (next, p) ↦
            add_fields-Own item names next last (add_field-Own item field out next own p)
              (ground (arith, e, p))
      ]
