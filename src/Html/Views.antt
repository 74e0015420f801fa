-- ===== src/Html/Views.antt =====
-- ahb_aclint/sim/rtl_sim/bin/cov_html.py: the two views of `build`, per instance and accumulated to
-- source locations, and the waivers of `main`.
pub mod Collapse
use arvern_ips.Prelude.{
  ℕ, zero, suc, ◌+◌, ◌-◌, ◌*◌, ◌/◌, ◌%◌, ◌≤◌, ◌<◌, max, min, ◌≡◌, refl, sym, ap, ◌∙◌, ◌≢◌, ◌↔◌, ◌⊎◌,
  inl, inr, Bool, true, false, not, ◌&&◌, ◌||◌, Option, none, some, List, [], ◌∷◌, ◌++◌, map,
  append-nil, append_assoc, arith, ltb, leb, ◌==◌, if◌then◌else◌, ltb→lt, lt→ltb, leb→le, ==_iff,
  Bool-cases, Option-cases, Bool-ext, and-eq-true, or-eq-true, length, get_elem?, get_or, take,
  drop, replicate, keep_if, any, all, is_nil, length-append, List-cases, drop-append,
  keep_if-append, length-keep_if-le, any-append, Eq, eqb, nat_eq, list_beq, list_beq_iff, list_eq,
  pair_beq, pair_beq_iff, pair_eq, eqb_refl, eqb_sym, contains, contains-append, IsDistinct,
  contains-keep_if, unseen, unseen-cons-le, unseen-cons-lt, Text, codes, is_space, lstrip, rstrip,
  strip, starts_with, starts_with-append, ends_with, has_part, before, split_on, join, rpartition,
  basename,
}
use arvern_ips.Prelude.Dict.{
  Dict, keys, lookup, insert, has_key, set_default, lookup-insert, has_key-insert, has_key-lookup,
  contains-keys, insert-IsDistinct,
}
use arvern_ips.Prelude.Decimal.{
  is_digit, is_number, int, show, int-show, show_injective, is_number-show,
}
use arvern_ips.Prelude.Sorting.{
  text_le, text_le_total, text_le_trans, insert_sorted, sort, IsSorted, length-insert_sorted,
  length-sort, all-sort, sort-IsSorted, contains-insert_sorted, contains-sort,
}
use arvern_ips.Waivers.Match.{Waiver, Point, match}
use arvern_ips.Points.Scope.{add_all}
use arvern_ips.Html.Read.{Key, Cover}

-- `(path, line, page, sig, num)`
abbrev pub Place : Type 0
Place = Text × (ℕ × (Text × (Text × Text)))

-- `(cnt, tests, r)`
pub record Entry : Type 0 where
  pub count : ℕ
  pub tests : List Text
  pub reason : Option Text

-- The truth of a reason: None and the empty text are false.
unfoldable pub is_waived : Option Text → Bool
is_waived none = false
is_waived (some r) = not (is_nil r)

-- `prev and r`
unfoldable pub both : Option Text → Option Text → Option Text
both prev r = if is_waived prev then r else prev

unfoldable pub place_of : Key → Place
place_of (path, (line, (page, (sig, (hier, (num, variant)))))) = (path, (line, (page, (sig, num))))

unfoldable pub entry_of : Dict Key Text → Key → Cover → Entry
entry_of reasons key c = record { count = c.count; tests = c.tests; reason = lookup key reasons }

-- `views['inst']`
unfoldable pub inst_view : Dict Key Text → Dict Key Cover → Dict Key Entry
inst_view reasons [] = []
inst_view reasons ((key, c) ∷ pts) = (key, entry_of reasons key c) ∷ inst_view reasons pts

unfoldable pub merged : Entry → Entry → Entry
merged prev e = record {
  count = max prev.count e.count;
  tests = add_all e.tests prev.tests;
  reason = both prev.reason e.reason;
}

unfoldable pub add_place : Dict Place Entry → Place → Entry → Dict Place Entry
add_place acc k e = elim (lookup k acc) [
  | none ↦ insert k e acc
  | some prev ↦ insert k (merged prev e) acc
]

-- `views['acc']`
unfoldable pub acc_from : Dict Place Entry → Dict Key Entry → Dict Place Entry
acc_from acc [] = acc
acc_from acc ((key, e) ∷ pts) = acc_from (add_place acc (place_of key) e) pts

unfoldable pub acc_view : Dict Key Text → Dict Key Cover → Dict Place Entry
acc_view reasons pts = acc_from [] (inst_view reasons pts)

unfoldable pub point_of : Key → Point
point_of (path, (line, (page, (sig, rest)))) = record {
  path = path;
  line = line;
  page = page;
  sig = sig;
}

-- `reasons`, and the waivers with their hits counted.
unfoldable pub reasons_of :
    (Text → List Text)
    → (Text → Text → Bool)
    → List Waiver
    → Dict Key Cover
    → Dict Key Text × List Waiver
reasons_of source search ws [] = ([], ws)
reasons_of source search ws ((key, c) ∷ pts) =
    let (found, ws') = match source search ws (point_of key) in
    let rest = reasons_of source search ws' pts in
    elim found [ none ↦ rest | some w ↦ ((key, w.reason) ∷ rest.0, rest.1) ]
