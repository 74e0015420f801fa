-- ===== src/Points/Database/Union.antt =====
-- A point of a report is hit exactly when some database counts it.
use arvern_ips.Prelude.{
  ℕ, max, ◌≡◌, refl, sym, ap, ◌∙◌, inl, inr, Bool, false, ◌&&◌, ◌||◌, none, some, List, [], ◌∷◌,
  arith, ltb, Bool-cases, Option-cases, any, eqb, nat_eq, list_beq_iff, list_eq, pair_eq, Text,
}
use arvern_ips.Prelude.Dict.{Dict, lookup, lookup-insert}
use arvern_ips.Points.Database.{Hit, parse_line, add_point, parse_lines}
use arvern_ips.Points.Database.Directions.{is_hit}

-- The line of a database counts the point.
abbrev pub counts : List Text → Text → Text → Bool
counts rtl_pats key ln = elim (parse_line rtl_pats ln) [
  | none ↦ false
  | some (k, h) ↦ eqb k key && ltb 0 h.count
]

ltb-max : (m n : ℕ) → ltb 0 (max m n) ≡ (ltb 0 m || ltb 0 n)
ltb-max m n = ground arith

add_point-hit :
    (pts : Dict Text Hit) (key k : Text) (h : Hit)
    → is_hit (lookup key (add_point pts k h))
      ≡ (is_hit (lookup key pts) || (eqb k key && ltb 0 h.count))
unfolding add_point
add_point-hit pts key k h = elim (Bool-cases (eqb k key)) [
  | inl same ↦
      let q : k ≡ key = (list_beq_iff k key).0 same in
      elim (Option-cases (lookup k pts)) [
        | inl e ↦
            let e' : lookup key pts ≡ none = ap (λ b. lookup b pts) (sym q) ∙ e in
            rw (add_point, e, lookup-insert k key h pts, same, e') refl
        | inr (prev, e) ↦
            let e' : lookup key pts ≡ some prev = ap (λ b. lookup b pts) (sym q) ∙ e in
            let most : Hit = record h { count = max prev.count h.count } in
            rw (add_point, e, lookup-insert k key most pts, same, e')
              (ground (arith, ltb-max prev.count h.count))
      ]
  | inr other ↦ elim (Option-cases (lookup k pts)) [
    | inl e ↦ rw (add_point, e, lookup-insert k key h pts, other) (ground arith)
    | inr (prev, e) ↦
        let most : Hit = record h { count = max prev.count h.count } in
        rw (add_point, e, lookup-insert k key most pts, other) (ground arith)
  ]
]

parse_lines-hit_onto :
    (rtl_pats : List Text) (pts : Dict Text Hit) (lns : List Text) (key : Text)
    → is_hit (lookup key (parse_lines rtl_pats pts lns))
      ≡ (is_hit (lookup key pts) || any (counts rtl_pats key) lns)
unfolding parse_lines
parse_lines-hit_onto rtl_pats pts [] key = ground arith
parse_lines-hit_onto rtl_pats pts (ln ∷ lns) key = elim (Option-cases (parse_line rtl_pats ln)) [
  | inl e ↦ let rest = parse_lines-hit_onto rtl_pats pts lns key in ground (arith, e, rest)
  | inr (p, e) ↦
      let rest = parse_lines-hit_onto rtl_pats (add_point pts p.0 p.1) lns key in
      rw (parse_lines, e, rest, add_point-hit pts key p.0 p.1) (ground arith)
]

-- Before its directions are folded, a point is hit exactly when some line of some database counts it:
-- merging the databases loses no hit and makes up none.
pub parse_lines-hit :
    (rtl_pats : List Text) (lns : List Text) (key : Text)
    → is_hit (lookup key (parse_lines rtl_pats [] lns)) ≡ any (counts rtl_pats key) lns
unfolding lookup
parse_lines-hit rtl_pats lns key = parse_lines-hit_onto rtl_pats [] lns key
