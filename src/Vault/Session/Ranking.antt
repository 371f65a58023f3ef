-- ===== src/Vault/Session/Ranking.antt =====
-- The candidates for a page: the matching items, the most recent first.
use vpn_password_manager.Base.{
  ℤ, ◌≤ℤ◌, ≤ℤ_trans, leb_ℤ, Text, true, List, [], ◌∷◌, Option, ◌≡◌, retain, In, In-retain, All, inl,
  inr, ◌⊎◌, ◌↔◌, arith, Bool-cases,
}
use vpn_password_manager.Vault.Model.{Item}
use vpn_password_manager.Vault.Session.{
  ParsedUrl, origin_matches, insert_recent, sort_recent, rank_matches,
}

-- No item is followed by a more recent one.
abbrev pub IsRanked : List Item → Type 0
IsRanked [] = Unit
IsRanked (a ∷ rest) = All (λ (b : Item). b.updated_at ≤ℤ a.updated_at) rest × IsRanked rest

module _ (url_parse : Text → Option ParsedUrl) where
  insert_recent-All :
      (z : ℤ) (a : Item) (xs : List Item)
      → a.updated_at ≤ℤ z
      → All (λ (b : Item). b.updated_at ≤ℤ z) xs
      → All (λ (b : Item). b.updated_at ≤ℤ z) (insert_recent url_parse a xs)
  unfolding insert_recent
  insert_recent-All z a [] h hs = (h, tt)
  insert_recent-All z a (b ∷ xs) h hs = ground (arith, insert_recent-All z a xs h hs.1, h, hs)

  below :
      (y z : ℤ) (xs : List Item)
      → y ≤ℤ z
      → All (λ (b : Item). b.updated_at ≤ℤ y) xs
      → All (λ (b : Item). b.updated_at ≤ℤ z) xs
  below y z [] h hs = tt
  below y z (b ∷ xs) h hs = (≤ℤ_trans b.updated_at y z hs.0 h, below y z xs h hs.1)

  insert_recent-IsRanked :
      (a : Item) (xs : List Item) → IsRanked xs → IsRanked (insert_recent url_parse a xs)
  unfolding insert_recent
  insert_recent-IsRanked a [] r = (tt, tt)
  insert_recent-IsRanked a (b ∷ xs) r = elim (Bool-cases (leb_ℤ b.updated_at a.updated_at)) [
    | inl p ↦
        let le : b.updated_at ≤ℤ a.updated_at = ground (arith, p) in
        rw p ((le, below b.updated_at a.updated_at xs le r.0), r)
    | inr p ↦
        let le : a.updated_at ≤ℤ b.updated_at = ground (arith, p) in
        rw p (insert_recent-All b.updated_at a xs le r.0, insert_recent-IsRanked a xs r.1)
  ]

  In-insert_recent :
      (x a : Item) (xs : List Item) → In x (insert_recent url_parse a xs) ↔ ((x ≡ a) ⊎ In x xs)
  unfolding insert_recent
  In-insert_recent x a [] = (λ i. i, λ i. i)
  In-insert_recent x a (b ∷ xs) = ground (arith, In-insert_recent x a xs)

  In-sort_recent : (x : Item) (xs : List Item) → In x (sort_recent url_parse xs) ↔ In x xs
  unfolding sort_recent
  In-sort_recent x [] = (λ i. i, λ i. i)
  In-sort_recent x (a ∷ xs) =
      ground (arith, In-sort_recent x xs, In-insert_recent x a (sort_recent url_parse xs))

  sort_recent-IsRanked : (xs : List Item) → IsRanked (sort_recent url_parse xs)
  unfolding sort_recent
  sort_recent-IsRanked [] = tt
  sort_recent-IsRanked (a ∷ xs) =
      insert_recent-IsRanked a (sort_recent url_parse xs) (sort_recent-IsRanked xs)

  -- The candidates for a page are exactly those of the items that match it, and none of them is
  -- followed by one that was updated later.
  pub rank_matches-IsRanked :
      (items : List Item) (page : Text)
      → IsRanked (rank_matches url_parse items page)
        × ((x : Item)
            → In x (rank_matches url_parse items page)
              ↔ (In x items × (origin_matches url_parse x.urls page ≡ true)))
  unfolding rank_matches
  rank_matches-IsRanked items page =
      let matching = retain (λ (i : Item). origin_matches url_parse i.urls page) items in
      (
        sort_recent-IsRanked matching,
        λ x.
            let sorted = In-sort_recent x matching in
            let kept = In-retain (λ (i : Item). origin_matches url_parse i.urls page) items x in
            (λ i. kept.0 (sorted.0 i), λ i. sorted.1 (kept.1 i)),
      )
