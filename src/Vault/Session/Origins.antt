-- ===== src/Vault/Session/Origins.antt =====
-- Which pages an item's saved URLs match.
use vpn_password_manager.Base.{
  ℕ, Text, codes, text_eq_iff, true, List, [], ◌∷◌, Option, none, some, ◌≡◌, refl, sym, subst, ◌∙◌,
  any, In, inl, inr, ◌↔◌, arith, Bool-cases, Option-cases,
}
use vpn_password_manager.Vault.Session.Sites.{IsSite, IsSite_iff}
use vpn_password_manager.Vault.Model.{UrlMatch, UrlMode}
use vpn_password_manager.Vault.Session.{
  ParsedUrl, Origin, registrable_domain, port_eq, hosts_match, parse_origin, rules_allow,
  url_matches, origin_matches,
}

abbrev pub HostsAgree : UrlMode → Text → Text → Type 0
HostsAgree UrlMode.host saved page = saved ≡ page
HostsAgree UrlMode.domain saved page = (site : Text) × IsSite saved site × IsSite page site

-- The rules for a saved and a page's origin.
pub record IsAllowed (mode : UrlMode) (saved page : Origin) : Type 0 where
  pub no_downgrade : ¬ ((saved.scheme ≡ codes "https") × (page.scheme ≡ codes "http"))
  pub same_port : saved.port ≡ page.port
  pub hosts : HostsAgree mode saved.host page.host

port_eq_iff : (p q : Option ℕ) → (port_eq p q ≡ true) ↔ (p ≡ q)
port_eq_iff none none = ground arith
port_eq_iff none (some q) = ground arith
port_eq_iff (some p) none = ground arith
port_eq_iff (some p) (some q) = ground arith

hosts_match_iff :
    (mode : UrlMode) (saved page : Text)
    → (hosts_match mode saved page ≡ true) ↔ HostsAgree mode saved page
unfolding hosts_match
hosts_match_iff UrlMode.host saved page = text_eq_iff saved page
hosts_match_iff UrlMode.domain saved page =
    let same = text_eq_iff (registrable_domain saved) (registrable_domain page) in
    (
      λ h. (
        registrable_domain page,
        (IsSite_iff saved (registrable_domain page)).1 (same.0 h),
        (IsSite_iff page (registrable_domain page)).1 refl,
      ),
      λ (site, s, p). same.1 ((IsSite_iff saved site).0 s ∙ sym ((IsSite_iff page site).0 p)),
    )

module _ (url_parse : Text → Option ParsedUrl) where
  rules_allow→IsAllowed :
      (mode : UrlMode) (saved page : Origin)
      → rules_allow url_parse mode saved page ≡ true
      → IsAllowed mode saved page
  unfolding rules_allow
  rules_allow→IsAllowed mode saved page h = record {
    no_downgrade = λ (a, b). ground (
      arith,
      h,
      a,
      b,
      text_eq_iff saved.scheme (codes "https"),
      text_eq_iff page.scheme (codes "http"),
    );
    same_port = ground (arith, h, port_eq_iff saved.port page.port);
    hosts = (hosts_match_iff mode saved.host page.host).0 (ground (arith, h));
  }

  IsAllowed→rules_allow :
      (mode : UrlMode) (saved page : Origin)
      → IsAllowed mode saved page
      → rules_allow url_parse mode saved page ≡ true
  unfolding rules_allow
  IsAllowed→rules_allow mode saved page a =
      let same = (hosts_match_iff mode saved.host page.host).1 a.hosts in
      ground (
        arith,
        a.no_downgrade,
        a.same_port,
        same,
        text_eq_iff saved.scheme (codes "https"),
        text_eq_iff page.scheme (codes "http"),
        port_eq_iff saved.port page.port,
      )

  -- A saved URL that lets the page be filled.
  abbrev pub IsMatch : List UrlMatch → Origin → Type 0
  IsMatch urls page =
      (u : UrlMatch) × (saved : Origin) × In u urls
      × (parse_origin url_parse u.url ≡ some saved)
      × IsAllowed u.mode saved page

  url_matches_iff :
      (page : Origin) (u : UrlMatch)
      → (url_matches url_parse page u ≡ true) ↔ (
          (saved : Origin) × (parse_origin url_parse u.url ≡ some saved)
          × IsAllowed u.mode saved page)
  unfolding url_matches
  url_matches_iff page u = elim (Option-cases (parse_origin url_parse u.url)) [
    | inl p ↦ (λ h. absurd (ground (arith, h, p)), λ (s, q, a). absurd (ground (arith, p, q)))
    | inr (s, p) ↦ (
      λ h. (s, p, rules_allow→IsAllowed u.mode s page (rw (p, url_matches) at h)),
      λ (t, q, a).
          let same : s ≡ t = ground (arith, p, q) in
          rw (p, url_matches)
            (IsAllowed→rules_allow u.mode s page
              (subst (λ x. IsAllowed u.mode x page) (sym same) a)),
    )
  ]

  IsMatch-any :
      (page : Origin) (u : UrlMatch) (urls : List UrlMatch)
      → (IsMatch urls page → any (url_matches url_parse page) urls ≡ true)
      → IsMatch (u ∷ urls) page
      → any (url_matches url_parse page) (u ∷ urls) ≡ true
  IsMatch-any page u urls later (v, s, inl e, q, a) =
      let here : url_matches url_parse page v ≡ true = (url_matches_iff page v).1 (s, q, a) in
      let mine : url_matches url_parse page u ≡ true = rw (← e) here in ground (arith, mine)
  IsMatch-any page u urls later (v, s, inr i, q, a) = ground (arith, later (v, s, i, q, a))

  any-IsMatch :
      (page : Origin) (urls : List UrlMatch)
      → (any (url_matches url_parse page) urls ≡ true) ↔ IsMatch urls page
  any-IsMatch page [] = (λ h. cc, λ (u, s, i, q, a). absurd i)
  any-IsMatch page (u ∷ urls) = (
    λ h. elim (Bool-cases (url_matches url_parse page u)) [
      | inl p ↦ let (s, q, a) = (url_matches_iff page u).0 p in (u, s, inl refl, q, a)
      | inr p ↦
          let (v, s, i, q, a) = (any-IsMatch page urls).0 (ground (arith, h, p)) in
          (v, s, inr i, q, a)
    ],
    IsMatch-any page u urls (any-IsMatch page urls).1,
  )

  -- A page is matched exactly when it parses to an origin and one of the saved URLs parses to an
  -- origin that agrees with it: not an https URL for an http page, the same port, and the same
  -- host or, in domain mode, hosts of the same site. The site is not the public suffix list's: it
  -- is a host of at most two labels itself, else its last two labels, or its last three where the
  -- last two are one of the sixteen suffixes that the code lists.
  pub origin_matches_iff :
      (urls : List UrlMatch) (page_origin : Text)
      → (origin_matches url_parse urls page_origin ≡ true)
        ↔ ((page : Origin) × (parse_origin url_parse page_origin ≡ some page) × IsMatch urls page)
  unfolding origin_matches
  origin_matches_iff urls page_origin = elim (Option-cases (parse_origin url_parse page_origin)) [
    | inl p ↦ (λ h. absurd (ground (arith, h, p)), λ (s, q, a). absurd (ground (arith, p, q)))
    | inr (page, p) ↦ (
      λ h. (page, p, (any-IsMatch page urls).0 (rw (p, origin_matches) at h)),
      λ (t, q, a).
          let same : page ≡ t = ground (arith, p, q) in
          rw (p, origin_matches) ((any-IsMatch page urls).1 (subst (IsMatch urls) (sym same) a)),
    )
  ]
