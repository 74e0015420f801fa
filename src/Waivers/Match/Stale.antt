-- ===== src/Waivers/Match/Stale.antt =====
-- Hits go to the first waiver that covers a point, and to no other.
use arvern_ips.Prelude.{
  ℕ, ◌+◌, ◌≡◌, refl, sym, ap, ◌∙◌, ◌↔◌, inl, inr, Bool, true, false, not, ◌&&◌, ◌||◌, none, some,
  List, [], ◌∷◌, map, arith, Bool-cases, Option-cases, length, keep_if, any, nat_eq, list_eq,
  pair_eq, Text,
}
use arvern_ips.Waivers.Match.{Waiver, Point, covers, match, match_all}

abbrev pub hits_of : List Waiver → List ℕ
hits_of = map (λ (w : Waiver). w.hits)

module _ (source : Text → List Text) (search : Text → Text → Bool) where
  -- The points that a waiver covers and that are not taken by one in front of it.
  abbrev pub claims : (Point → Bool) → Waiver → List Point → List Point
  claims taken w = keep_if (λ p. covers source search w p && not (taken p))

  -- The hits that each waiver should have after a report.
  abbrev pub expected_hits : (Point → Bool) → List Waiver → List Point → List ℕ
  expected_hits taken [] ps = []
  expected_hits taken (w ∷ ws) ps =
      (w.hits + length (claims taken w ps))
      ∷ expected_hits (λ p. taken p || covers source search w p) ws ps

  expected_hits_taken :
      (taken : Point → Bool) (ws : List Waiver) (p : Point) (ps : List Point)
      → taken p ≡ true
      → expected_hits taken ws (p ∷ ps) ≡ expected_hits taken ws ps
  expected_hits_taken taken [] p ps h = refl
  expected_hits_taken taken (w ∷ ws) p ps h =
      let rest = expected_hits_taken (λ q. taken q || covers source search w q) ws p ps (rw h) in
      ground (arith, rest)

  expected_hits-match :
      (taken : Point → Bool) (ws : List Waiver) (p : Point) (ps : List Point)
      → taken p ≡ false
      → expected_hits taken (match source search ws p).1 ps ≡ expected_hits taken ws (p ∷ ps)
  unfolding match covers
  expected_hits-match taken [] p ps h = refl
  expected_hits-match taken (w ∷ ws) p ps h = elim (Bool-cases (covers source search w p)) [
    | inl covered ↦
        let rest =
          expected_hits_taken (λ q. taken q || covers source search w q) ws p ps
            (rw (h, covered)) in
        rw (covered, h) (ground (arith, rest, covered, h))
    | inr missed ↦
        let rest =
          expected_hits-match (λ q. taken q || covers source search w q) ws p ps (rw (h, missed)) in
        rw missed (ap (λ t. (w.hits + length (claims taken w ps)) ∷ t) rest)
  ]

  -- Some waiver covers the point.
  abbrev pub is_waived : List Waiver → Point → Bool
  is_waived ws p = any (λ w. covers source search w p) ws

  match-is_waived :
      (ws : List Waiver) (p : Point)
      → ((match source search ws p).0 ≡ none) ↔ (is_waived ws p ≡ false)
  unfolding match
  match-is_waived [] p = (λ h. refl, λ h. refl)
  match-is_waived (w ∷ ws) p =
      let ih = match-is_waived ws p in (λ h. ground arith, λ h. ground arith)

  match_found-is_waived :
      (ws : List Waiver) (p : Point) (w : Waiver)
      → (match source search ws p).0 ≡ some w
      → is_waived ws p ≡ true
  match_found-is_waived ws p w found =
      let missed = (match-is_waived ws p).1 in
      elim (Bool-cases (is_waived ws p)) [
        | inl waived ↦ waived
        | inr unwaived ↦ ground (arith, sym found ∙ missed unwaived)
      ]

  is_waived-match :
      (ws : List Waiver) (p q : Point) → is_waived (match source search ws p).1 q ≡ is_waived ws q
  unfolding match covers
  is_waived-match [] p q = refl
  is_waived-match (w ∷ ws) p q = elim (Bool-cases (covers source search w p)) [
    | inl covered ↦ rw covered refl
    | inr missed ↦ rw missed (ap (λ b. covers source search w q || b) (is_waived-match ws p q))
  ]

  expected_hits-nil :
      (taken : Point → Bool) (ws : List Waiver) → expected_hits taken ws [] ≡ hits_of ws
  expected_hits-nil taken [] = refl
  expected_hits-nil taken (w ∷ ws) =
      let rest = expected_hits-nil (λ p. taken p || covers source search w p) ws in
      ground (arith, rest)

  kept-match :
      (ws : List Waiver) (p : Point) (ps : List Point)
      → keep_if (λ q. not (is_waived (match source search ws p).1 q)) ps
        ≡ keep_if (λ q. not (is_waived ws q)) ps
  kept-match ws p [] = refl
  kept-match ws p (q ∷ ps) = let rest = kept-match ws p ps in rw (is_waived-match ws p q, rest) refl

  -- Matching the points of a report in turn, each waiver gains one hit for every point that it covers
  -- and no waiver in front of it covers, so it is reported stale exactly when there is no such point;
  -- and the points that are kept are those that no waiver covers.
  pub match_all-hits :
      (ws : List Waiver) (ps : List Point)
      → (hits_of (match_all source search ws ps).1 ≡ expected_hits (λ p. false) ws ps)
        × ((match_all source search ws ps).0 ≡ keep_if (λ p. not (is_waived ws p)) ps)
  unfolding match_all
  match_all-hits ws [] = (sym (expected_hits-nil (λ p. false) ws), refl)
  match_all-hits ws (p ∷ ps) =
      let ih = match_all-hits (match source search ws p).1 ps in
      let hits = ih.0 ∙ expected_hits-match (λ p. false) ws p ps refl in
      let kept = ih.1 ∙ kept-match ws p ps in
      elim (Option-cases (match source search ws p).0) [
        | inl missed ↦
            rw (missed, match_all)
              (hits, rw ((match-is_waived ws p).0 missed) (ap (λ t. p ∷ t) kept))
        | inr (w, found) ↦
            rw (found, match_all) (hits, rw (match_found-is_waived ws p w found) kept)
      ]
