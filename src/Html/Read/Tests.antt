-- ===== src/Html/Read/Tests.antt =====
-- The tests that a point names, against the databases.
use arvern_ips.Prelude.{
  ℕ, ◌≡◌, refl, sym, ap, ◌∙◌, ◌↔◌, ◌⊎◌, inl, inr, Bool, true, false, ◌&&◌, ◌||◌, Option, none, some,
  List, [], ◌∷◌, arith, ltb, Bool-cases, Option-cases, any, eqb, nat_eq, list_beq, list_beq_iff,
  list_eq, pair_beq_iff, pair_eq, contains, Text, starts_with,
}
use arvern_ips.Prelude.Dict.{Dict, lookup, lookup-insert}
use mathlib.Core.Option.{some-injective}
use arvern_ips.Points.Scope.{add}
use arvern_ips.Html.Read.{
  Key, Cover, Parsed, skipped, raised, point, test_name, parse_line, known, bumped, add_point,
  parse_lines, parse_files, parse,
}

-- The point is there and names the test.
abbrev pub names : Text → Option Cover → Bool
names t none = false
names t (some e) = contains e.tests t

abbrev pub is_hit : Option Cover → Bool
is_hit none = false
is_hit (some e) = ltb 0 e.count

-- The line counts the point.
abbrev pub counts : List Text → Key → Text → Bool
counts rtl_pats key ln = elim (parse_line rtl_pats ln) [
  | skipped ↦ false
  | raised ↦ false
  | point k c ↦ eqb k key && ltb 0 c
]

-- The database is one of the test, and some line of it counts the point.
abbrev pub counted_by : List Text → Key → Text → List (Text × List Text) → Bool
counted_by rtl_pats key t dats =
    any (λ (d : Text × List Text). any (counts rtl_pats key) d.1 && eqb (test_name d.0) t) dats

contains-add :
    (x : Text) (xs : List Text) (t : Text) → contains (add x xs) t ≡ (eqb x t || contains xs t)
unfolding add contains
contains-add x xs t = ground (arith, list_beq_iff x t)

Parsed-cases :
    (r : Parsed) → (r ≡ skipped) ⊎ ((r ≡ raised) ⊎ ((k : Key) × (c : ℕ) × (r ≡ point k c)))
Parsed-cases skipped = inl refl
Parsed-cases raised = inr (inl refl)
Parsed-cases (point k c) = inr (inr (k, c, refl))

key_iff : (j k : Key) → (eqb j k ≡ true) ↔ (j ≡ k)
key_iff j k = pair_beq_iff j k

bumped-names :
    (test : Text) (c : ℕ) (e : Option Cover) (t : Text)
    → names t (some (bumped test c (known e))) ≡ (names t e || (ltb 0 c && eqb test t))
unfolding bumped known contains
bumped-names test c none t = ground (arith, contains-add test [] t)
bumped-names test c (some e) t = ground (arith, contains-add test e.tests t)

bumped-hit :
    (test : Text) (c : ℕ) (e : Option Cover)
    → is_hit (some (bumped test c (known e))) ≡ (is_hit e || ltb 0 c)
unfolding bumped known
bumped-hit test c none = ground arith
bumped-hit test c (some e) = ground arith

add_point-lookup :
    (test : Text) (pts : Dict Key Cover) (k key : Key) (c : ℕ) (t : Text)
    → (names t (lookup key (add_point test pts k c))
        ≡ (names t (lookup key pts) || ((eqb k key && ltb 0 c) && eqb test t)))
      × (is_hit (lookup key (add_point test pts k c))
          ≡ (is_hit (lookup key pts) || (eqb k key && ltb 0 c)))
unfolding add_point
add_point-lookup test pts k key c t =
    let new = bumped test c (known (lookup k pts)) in
    let named = bumped-names test c (lookup k pts) t in
    let hit = bumped-hit test c (lookup k pts) in
    elim (Bool-cases (eqb k key)) [
      | inl same ↦
          let there = ap (λ i. lookup i pts) ((key_iff k key).0 same) in
          (
            rw (add_point, lookup-insert k key new pts, same, named, there) refl,
            rw (add_point, lookup-insert k key new pts, same, hit, there) refl,
          )
      | inr other ↦ (
        rw (add_point, lookup-insert k key new pts, other) (ground arith),
        rw (add_point, lookup-insert k key new pts, other) (ground arith),
      )
    ]

parse_lines-lookup :
    (rtl_pats : List Text) (test : Text) (pts : Dict Key Cover) (lns : List Text) (key : Key)
    (t : Text) (out : Dict Key Cover)
    → parse_lines rtl_pats test pts lns ≡ some out
    → (names t (lookup key out)
        ≡ (names t (lookup key pts) || (any (counts rtl_pats key) lns && eqb test t)))
      × (is_hit (lookup key out) ≡ (is_hit (lookup key pts) || any (counts rtl_pats key) lns))
unfolding parse_lines lookup list_beq parse_line starts_with
parse_lines-lookup rtl_pats test pts [] key t out h =
    let same = ap (lookup key) (some-injective pts out h) in
    (rw (sym same) (ground arith), rw (sym same) (ground arith))
parse_lines-lookup rtl_pats test pts (ln ∷ lns) key t out h =
    elim (Parsed-cases (parse_line rtl_pats ln)) [
      | inl e ↦
          let step : parse_lines rtl_pats test pts (ln ∷ lns) ≡ parse_lines rtl_pats test pts lns =
            rw (parse_lines, e) refl in
          let rest = parse_lines-lookup rtl_pats test pts lns key t out (sym step ∙ h) in
          (rest.0 ∙ rw e (ground arith), rest.1 ∙ rw e (ground arith))
      | inr (inl e) ↦
          let step : parse_lines rtl_pats test pts (ln ∷ lns) ≡ none = rw (parse_lines, e) refl in
          ground (arith, sym step ∙ h)
      | inr (inr (k, c, e)) ↦
          let now = add_point-lookup test pts k key c t in
          let entered = add_point test pts k c in
          let step : parse_lines rtl_pats test pts (ln ∷ lns)
              ≡ parse_lines rtl_pats test entered lns =
            rw (parse_lines, e) refl in
          let rest = parse_lines-lookup rtl_pats test entered lns key t out (sym step ∙ h) in
          (rest.0 ∙ rw (e, now.0) (ground arith), rest.1 ∙ rw (e, now.1) (ground arith))
    ]

parse_files-lookup :
    (rtl_pats : List Text) (pts : Dict Key Cover) (dats : List (Text × List Text)) (key : Key)
    (t : Text) (out : Dict Key Cover)
    → parse_files rtl_pats pts dats ≡ some out
    → (names t (lookup key out) ≡ (names t (lookup key pts) || counted_by rtl_pats key t dats))
      × (is_hit (lookup key out) ≡ (
          is_hit (lookup key pts)
          || any (λ (d : Text × List Text). any (counts rtl_pats key) d.1) dats))
unfolding parse_files
parse_files-lookup rtl_pats pts [] key t out h =
    let same = ap (lookup key) (some-injective pts out h) in
    (rw (sym same) (ground arith), rw (sym same) (ground arith))
parse_files-lookup rtl_pats pts ((fn, lns) ∷ dats) key t out h =
    elim (Option-cases (parse_lines rtl_pats (test_name fn) pts lns)) [
      | inl e ↦
          let step : parse_files rtl_pats pts ((fn, lns) ∷ dats) ≡ none =
            rw (parse_files, e) refl in
          ground (arith, sym step ∙ h)
      | inr (pts', e) ↦
          let step : parse_files rtl_pats pts ((fn, lns) ∷ dats) ≡ parse_files rtl_pats pts' dats =
            rw (parse_files, e) refl in
          let now = parse_lines-lookup rtl_pats (test_name fn) pts lns key t pts' e in
          let rest = parse_files-lookup rtl_pats pts' dats key t out (sym step ∙ h) in
          (rest.0 ∙ rw now.0 (ground arith), rest.1 ∙ rw now.1 (ground arith))
    ]

-- Where the databases are read, a point names a test exactly when a line of one of the test's
-- databases counts the point, and it is hit exactly when a line of some database counts it.
pub parse-tests :
    (rtl_pats : List Text) (dats : List (Text × List Text)) (key : Key) (t : Text)
    (out : Dict Key Cover)
    → parse rtl_pats dats ≡ some out
    → (names t (lookup key out) ≡ counted_by rtl_pats key t dats)
      × (is_hit (lookup key out)
          ≡ any (λ (d : Text × List Text). any (counts rtl_pats key) d.1) dats)
unfolding parse lookup
parse-tests rtl_pats dats key t out h = parse_files-lookup rtl_pats [] dats key t out h
