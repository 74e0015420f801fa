-- ===== src/Waivers/Lint/Points.antt =====
-- `lint` on the points of the database, before they are accumulated.
use arvern_ips.Prelude.{
  ℕ, max, ◌≡◌, ◌↔◌, inl, inr, Bool, true, not, ◌&&◌, ◌||◌, List, [], ◌∷◌, arith, ◌==◌, Bool-cases,
  length, keep_if, any, all, nat_eq, list_beq_iff, list_eq, pair_eq, Text,
}
use mathlib.Core.Path.{fun_ext, subst}
use arvern_ips.Prelude.Dict.{Dict}
use arvern_ips.Points.Database.{Hit}
use arvern_ips.Waivers.Match.{Waiver, Point, covers}
use arvern_ips.Waivers.Lint.{
  Counted, lint_point, same_point, add_counted, accumulated, lint, lint_points,
}
use arvern_ips.Waivers.Lint.Verdict.{is_sound, lint-eq-zero}

same_point-eq : (p q : Point) → same_point p q ≡ true → p ≡ q
same_point-eq p q h =
    ground
      (arith, h, list_beq_iff p.path q.path, list_beq_iff p.page q.page, list_beq_iff p.sig q.sig)

-- A test that holds at the larger count exactly when it holds at one of the two.
abbrev IsJoint : (Point → ℕ → Bool) → Type 0
IsJoint f = (p : Point) (c d : ℕ) → f p (max c d) ≡ (f p c || f p d)

module _ (f : Point → ℕ → Bool) (joint : IsJoint f) where
  abbrev some_counted : List Counted → Bool
  some_counted = any (λ (x : Counted). f x.0 x.1)

  any-add_counted :
      (acc : List Counted) (p : Point) (c : ℕ)
      → some_counted (add_counted acc p c) ≡ (some_counted acc || f p c)
  unfolding add_counted
  any-add_counted [] p c = ground arith
  any-add_counted ((q, d) ∷ acc) p c = elim (Bool-cases (same_point q p)) [
    | inl same ↦
        let e : q ≡ p = same_point-eq q p same in rw same (rw e (ground (arith, joint p d c)))
    | inr other ↦ rw other (ground (arith, any-add_counted acc p c))
  ]

  any-accumulated :
      (acc : List Counted) (pts : Dict Text Hit)
      → some_counted (accumulated acc pts)
        ≡ (some_counted acc || any (λ q. f (lint_point q.0 q.1) q.1.count) pts)
  unfolding accumulated
  any-accumulated acc [] = ground arith
  any-accumulated acc ((key, h) ∷ pts) = ground (
    arith,
    any-add_counted acc (lint_point key h) h.count,
    any-accumulated (add_counted acc (lint_point key h) h.count) pts,
  )

module _ (source : Text → List Text) (search : Text → Text → Bool) where
  -- The waiver matches some point of the database, and none that a test reached.
  abbrev pub is_justified : Dict Text Hit → Waiver → Bool
  is_justified pts w =
      any (λ q. covers source search w (lint_point q.0 q.1)) pts
      && not (any (λ q. covers source search w (lint_point q.0 q.1) && not (q.1.count == 0)) pts)

  is_sound-accumulated :
      (pts : Dict Text Hit) (w : Waiver)
      → is_sound source search (accumulated [] pts) w ≡ is_justified pts w
  is_sound-accumulated pts w =
      let matching : Point → ℕ → Bool = λ p c. covers source search w p in
      let reached : Point → ℕ → Bool = λ p c. covers source search w p && not (c == 0) in
      let some_match = any-accumulated matching (λ p c d. ground arith) [] pts in
      let some_reached = any-accumulated reached (λ p c d. ground arith) [] pts in
      ground (arith, some_match, some_reached)

  -- `lint` returns 0 exactly when every waiver matches at least one point of the database and none
  -- that some test reached, whichever instance of the source point it reached; in general it returns
  -- the number of waivers of which that fails.
  pub lint_points-eq-zero :
      (ws : List Waiver) (pts : Dict Text Hit)
      → ((lint_points source search ws pts ≡ 0) ↔ (all (is_justified pts) ws ≡ true))
        × (lint_points source search ws pts ≡ length (keep_if (λ w. not (is_justified pts w)) ws))
  unfolding lint_points
  lint_points-eq-zero ws pts =
      subst
        (λ (P : Waiver → Bool).
          ((lint source search ws (accumulated [] pts) ≡ 0) ↔ (all P ws ≡ true))
          × (lint source search ws (accumulated [] pts) ≡ length (keep_if (λ w. not (P w)) ws)))
        (fun_ext (is_sound-accumulated pts)) (lint-eq-zero source search ws (accumulated [] pts))
