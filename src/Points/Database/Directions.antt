-- ===== src/Points/Database/Directions.antt =====
-- When a toggle bit that is recorded by direction is covered: every direction that is recorded must
-- have been hit. A direction that no database records is not asked for.
use arvern_ips.Prelude.{
  ℕ, min, ◌≡◌, refl, sym, ap, ◌∙◌, inl, inr, Bool, true, false, not, ◌&&◌, ◌||◌, Option, none, some,
  [], ◌∷◌, arith, ltb, Bool-cases, Option-cases, any, all, eqb, nat_eq, list_beq_iff, list_eq,
  pair_eq, Text,
}
use arvern_ips.Prelude.Dict.{Dict, lookup, has_key, lookup-insert}
use arvern_ips.Points.Database.{Hit, undirected, fold_point, fold_directions}

-- The count of a point, and 0 where there is none.
abbrev pub is_hit : Option Hit → Bool
is_hit none = false
is_hit (some h) = ltb 0 h.count

-- The point is one direction of the bit.
abbrev pub is_direction : Text → Text × Hit → Bool
is_direction base (key, h) = eqb (undirected 0 key) base && not (eqb key base)

-- No point is recorded under the name of the bit itself.
abbrev pub HasNoPlain : Text → Dict Text Hit → Type 0
HasNoPlain base pts = has_key base pts ≡ false

abbrev pub is_there : Option Hit → Bool
is_there none = false
is_there (some h) = true

-- Whether the bit is there and hit, after one more point.
abbrev IsFolded : Text → Dict Text Hit → Text → Hit → Dict Text Hit → Type 0
IsFolded base folded key h next =
    (is_there (lookup base next) ≡ (is_there (lookup base folded) || is_direction base (key, h)))
    × (is_hit (lookup base next) ≡ (
        is_there (lookup base next)
        && ((not (is_there (lookup base folded)) || is_hit (lookup base folded))
            && (not (is_direction base (key, h)) || ltb 0 h.count))))

hit-there : (o : Option Hit) → is_hit o ≡ (is_there o && (not (is_there o) || is_hit o))
hit-there none = refl
hit-there (some h) = refl

ltb-min : (m n : ℕ) → ltb 0 (min m n) ≡ (ltb 0 m && ltb 0 n)
ltb-min m n = ground arith

fold_point-IsFolded :
    (folded : Dict Text Hit) (base key : Text) (h : Hit)
    → eqb key base ≡ false
    → IsFolded base folded key h (fold_point folded key h)
unfolding fold_point
fold_point-IsFolded folded base key h fresh = elim (Bool-cases (eqb (undirected 0 key) key)) [
  | inl plain ↦
      rw (fold_point, plain, lookup-insert key base h folded, fresh)
        (
          ground (arith, plain, fresh, list_beq_iff (undirected 0 key) key),
          ground (
            arith,
            plain,
            fresh,
            list_beq_iff (undirected 0 key) key,
            hit-there (lookup base folded),
          ),
        )
  | inr directed ↦ elim (Bool-cases (eqb (undirected 0 key) base)) [
    | inl same ↦
        let q : undirected 0 key ≡ base = (list_beq_iff (undirected 0 key) base).0 same in
        elim (Option-cases (lookup (undirected 0 key) folded)) [
          | inl e ↦
              let e' : lookup base folded ≡ none = ap (λ b. lookup b folded) (sym q) ∙ e in
              rw
                (
                  fold_point,
                  directed,
                  e,
                  lookup-insert (undirected 0 key) base h folded,
                  same,
                  e',
                  fresh,
                )
                (ground arith, ground arith)
          | inr (prev, e) ↦
              let e' : lookup base folded ≡ some prev = ap (λ b. lookup b folded) (sym q) ∙ e in
              let least : Hit = record h { count = min prev.count h.count } in
              rw
                (
                  fold_point,
                  directed,
                  e,
                  lookup-insert (undirected 0 key) base least folded,
                  same,
                  e',
                  fresh,
                )
                (ground arith, ground (arith, ltb-min prev.count h.count))
        ]
    | inr other ↦ elim (Option-cases (lookup (undirected 0 key) folded)) [
      | inl e ↦
          rw (fold_point, directed, e, lookup-insert (undirected 0 key) base h folded, other)
            (ground arith, ground (arith, hit-there (lookup base folded)))
      | inr (prev, e) ↦
          let least : Hit = record h { count = min prev.count h.count } in
          rw (fold_point, directed, e, lookup-insert (undirected 0 key) base least folded, other)
            (ground arith, ground (arith, hit-there (lookup base folded)))
    ]
  ]
]

fold_directions-lookup :
    (folded pts : Dict Text Hit) (base : Text)
    → HasNoPlain base pts
    → is_hit (lookup base (fold_directions folded pts)) ≡ (
        (is_there (lookup base folded) || any (is_direction base) pts)
        && ((not (is_there (lookup base folded)) || is_hit (lookup base folded))
            && all (λ q. not (is_direction base q) || ltb 0 q.1.count) pts))
unfolding fold_directions has_key
fold_directions-lookup folded [] base h = elim (Option-cases (lookup base folded)) [
  | inl e ↦ ground (arith, e)
  | inr (x, e) ↦ ground (arith, e)
]
fold_directions-lookup folded ((key, h) ∷ pts) base fresh =
    let step = fold_point-IsFolded folded base key h (ground (arith, fresh)) in
    let rest = fold_directions-lookup (fold_point folded key h) pts base (ground (arith, fresh)) in
    ground (arith, step.0, step.1, rest)

-- A toggle bit that is recorded by direction, and not as a single point, is covered exactly when
-- some direction of it is recorded and every direction that is recorded has been hit: where only
-- its rise is recorded, a hit rise is enough.
pub fold_directions-covered :
    (pts : Dict Text Hit) (base : Text)
    → HasNoPlain base pts
    → is_hit (lookup base (fold_directions [] pts))
      ≡ (any (is_direction base) pts && all (λ q. not (is_direction base q) || ltb 0 q.1.count) pts)
unfolding lookup
fold_directions-covered pts base fresh = fold_directions-lookup [] pts base fresh
