-- ===== src/Html/Views/Collapse.antt =====
-- The accumulated view against the instances behind each place.
use arvern_ips.Prelude.{
  ◌≡◌, sym, ap, ◌∙◌, ◌↔◌, inl, inr, Bool, true, false, not, ◌&&◌, ◌||◌, Option, none, some, [], ◌∷◌,
  arith, ltb, Bool-cases, Option-cases, any, eqb, nat_eq, list_eq, pair_beq_iff, pair_eq, Text,
}
use arvern_ips.Prelude.Dict.{Dict, lookup, lookup-insert}
use arvern_ips.Html.Read.{Key}
use arvern_ips.Html.Views.{Place, Entry, is_waived, both, place_of, merged, add_place, acc_from}

-- The place is there, some test hit it.
abbrev pub is_hit : Option Entry → Bool
is_hit none = false
is_hit (some e) = ltb 0 e.count

-- The place is there and counts as not waived.
abbrev pub is_open : Option Entry → Bool
is_open none = false
is_open (some e) = not (is_waived e.reason)

-- Some instance stands at the place and passes a test.
abbrev pub some_at : (Entry → Bool) → Place → Dict Key Entry → Bool
some_at q k pts = any (λ (p : Key × Entry). eqb (place_of p.0) k && q p.1) pts

abbrev pub was_hit : Entry → Bool
was_hit e = ltb 0 e.count

abbrev pub was_open : Entry → Bool
was_open e = not (is_waived e.reason)

both-is_waived : (prev r : Option Text) → is_waived (both prev r) ≡ (is_waived prev && is_waived r)
unfolding both
both-is_waived prev r = ground arith

place_iff : (j k : Place) → (eqb j k ≡ true) ↔ (j ≡ k)
place_iff j k = pair_beq_iff j k

add_place-lookup :
    (acc : Dict Place Entry) (j k : Place) (e : Entry)
    → (is_hit (lookup k (add_place acc j e)) ≡ (is_hit (lookup k acc) || (eqb j k && was_hit e)))
      × (is_open (lookup k (add_place acc j e))
          ≡ (is_open (lookup k acc) || (eqb j k && was_open e)))
unfolding add_place merged
add_place-lookup acc j k e = elim (Option-cases (lookup j acc)) [
  | inl absent ↦ elim (Bool-cases (eqb j k)) [
    | inl same ↦
        let there = sym (ap (λ i. lookup i acc) ((place_iff j k).0 same)) ∙ absent in
        rw (add_place, absent, lookup-insert j k e acc, same, there) (ground arith)
    | inr other ↦ rw (add_place, absent, lookup-insert j k e acc, other) (ground arith)
  ]
  | inr (prev, present) ↦
      let new : Entry = merged prev e in
      elim (Bool-cases (eqb j k)) [
        | inl same ↦
            let there = sym (ap (λ i. lookup i acc) ((place_iff j k).0 same)) ∙ present in
            rw (add_place, present, lookup-insert j k new acc, same, there)
              (ground (arith, both-is_waived prev.reason e.reason))
        | inr other ↦ rw (add_place, present, lookup-insert j k new acc, other) (ground arith)
      ]
]

acc_from-lookup :
    (acc : Dict Place Entry) (pts : Dict Key Entry) (k : Place)
    → (is_hit (lookup k (acc_from acc pts)) ≡ (is_hit (lookup k acc) || some_at was_hit k pts))
      × (is_open (lookup k (acc_from acc pts)) ≡ (is_open (lookup k acc) || some_at was_open k pts))
unfolding acc_from
acc_from-lookup acc [] k = ground arith
acc_from-lookup acc ((key, e) ∷ pts) k =
    let rest = acc_from-lookup (add_place acc (place_of key) e) pts k in
    let now = add_place-lookup acc (place_of key) k e in
    (rest.0 ∙ rw now.0 (ground arith), rest.1 ∙ rw now.1 (ground arith))

-- In the accumulated view a place is hit exactly when some instance behind it is hit, and it
-- counts as not waived exactly when some instance behind it is not waived: it is waived only if
-- every instance is.
pub acc_from-instances :
    (pts : Dict Key Entry) (k : Place)
    → (is_hit (lookup k (acc_from [] pts)) ≡ some_at was_hit k pts)
      × (is_open (lookup k (acc_from [] pts)) ≡ some_at was_open k pts)
unfolding lookup
acc_from-instances pts k = acc_from-lookup [] pts k
