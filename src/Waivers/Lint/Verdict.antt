-- ===== src/Waivers/Lint/Verdict.antt =====
-- What a clean lint means.
use arvern_ips.Prelude.{
  ℕ, suc, ◌+◌, ◌≡◌, refl, ap, ◌∙◌, ◌↔◌, inl, inr, Bool, true, not, ◌&&◌, List, [], ◌∷◌, arith, ◌==◌,
  if◌then◌else◌, Bool-cases, length, keep_if, any, all, nat_eq, list_eq, pair_eq, Text,
}
use arvern_ips.Waivers.Match.{Waiver, covers}
use arvern_ips.Waivers.Lint.{Counted, is_stale, is_broad, is_fine, lint_counts, lint_one, lint}

module _ (source : Text → List Text) (search : Text → Text → Bool) where
  abbrev matches : Waiver → Counted → Bool
  matches w (p, cnt) = covers source search w p

  abbrev swallows : Waiver → Counted → Bool
  swallows w (p, cnt) = covers source search w p && not (cnt == 0)

  lint_counts_lem :
      (w : Waiver) (m c : ℕ) (ps : List Counted)
      → ((lint_counts source search w (m, c) ps).0 ≡ m + length (keep_if (matches w) ps))
        × ((lint_counts source search w (m, c) ps).1 ≡ c + length (keep_if (swallows w) ps))
  unfolding lint_counts
  lint_counts_lem w m c [] = omega arith
  lint_counts_lem w m c ((p, cnt) ∷ ps) = elim (Bool-cases (covers source search w p)) [
    | inl yes_it ↦ elim (Bool-cases (cnt == 0)) [
      | inl z ↦ rw (yes_it, z) (omega (arith, lint_counts_lem w (m + 1) c ps))
      | inr s ↦ rw (yes_it, s) (omega (arith, lint_counts_lem w (m + 1) (c + 1) ps))
    ]
    | inr no_it ↦ rw no_it (omega (arith, lint_counts_lem w m c ps))
  ]

  length-any :
      {A : Type 0} (p : A → Bool) (xs : List A) → (length (keep_if p xs) == 0) ≡ not (any p xs)
  length-any p [] = refl
  length-any p (x ∷ xs) = ground (arith, length-any p xs)

  -- A waiver matches something, and nothing that a test reached.
  abbrev pub is_sound : List Counted → Waiver → Bool
  is_sound ps w = any (matches w) ps && not (any (swallows w) ps)

  lint_one_lem :
      (w : Waiver) (ps : List Counted)
      → lint_one source search w ps ≡ (
          if any (matches w) ps
          then (if any (swallows w) ps
              then is_broad (length (keep_if (matches w) ps)) (length (keep_if (swallows w) ps))
              else is_fine (length (keep_if (matches w) ps)))
          else is_stale)
  unfolding lint_one
  lint_one_lem w ps =
      let counts = lint_counts_lem w 0 0 ps in
      ground (arith, counts, length-any (matches w) ps, length-any (swallows w) ps)

  lint-cons :
      (w : Waiver) (ws : List Waiver) (ps : List Counted)
      → lint source search (w ∷ ws) ps
        ≡ (if is_sound ps w then lint source search ws ps else suc (lint source search ws ps))
  unfolding lint
  lint-cons w ws ps =
      let e = lint_one_lem w ps in
      elim (Bool-cases (any (matches w) ps)) [
        | inr none_match ↦
            let v : lint_one source search w ps ≡ is_stale = e ∙ rw none_match in
            rw (v, none_match, lint)
        | inl some_match ↦ elim (Bool-cases (any (swallows w) ps)) [
          | inl broad ↦
              let v : lint_one source search w ps
                  ≡ is_broad (length (keep_if (matches w) ps)) (length (keep_if (swallows w) ps)) =
                e ∙ rw (some_match, broad) in
              rw (v, some_match, broad, lint)
          | inr fine ↦
              let v : lint_one source search w ps ≡ is_fine (length (keep_if (matches w) ps)) =
                e ∙ rw (some_match, fine) in
              rw (v, some_match, fine, lint)
        ]
      ]

  lint-length :
      (ws : List Waiver) (ps : List Counted)
      → lint source search ws ps ≡ length (keep_if (λ w. not (is_sound ps w)) ws)
  lint-length [] ps = unfold lint in refl
  lint-length (w ∷ ws) ps = elim (Bool-cases (is_sound ps w)) [
    | inl sound ↦ lint-cons w ws ps ∙ rw sound (lint-length ws ps)
    | inr bad ↦ lint-cons w ws ps ∙ rw bad (ap suc (lint-length ws ps))
  ]

  all-keep_if :
      {A : Type 0} (p : A → Bool) (xs : List A)
      → (length (keep_if (λ x. not (p x)) xs) ≡ 0) ↔ (all p xs ≡ true)
  all-keep_if p [] = (λ h. refl, λ h. refl)
  all-keep_if p (x ∷ xs) = let ih = all-keep_if p xs in (λ h. ground arith, λ h. ground arith)

  -- `lint` returns 0 exactly when every waiver matches at least one point of the database and none
  -- that is covered; in general it returns the number of waivers of which that fails.
  pub lint-eq-zero :
      (ws : List Waiver) (ps : List Counted)
      → ((lint source search ws ps ≡ 0) ↔ (all (is_sound ps) ws ≡ true))
        × (lint source search ws ps ≡ length (keep_if (λ w. not (is_sound ps w)) ws))
  lint-eq-zero ws ps = let e = lint-length ws ps in (rw e (all-keep_if (is_sound ps) ws), e)
