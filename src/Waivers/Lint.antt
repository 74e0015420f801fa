-- ===== src/Waivers/Lint.antt =====
-- `lint`: every waiver is held against every accumulated point on its own.
pub mod Verdict
pub mod Points
use arvern_ips.Prelude.{
  ℕ, zero, suc, ◌+◌, ◌-◌, ◌*◌, ◌/◌, ◌%◌, ◌≤◌, ◌<◌, max, min, ◌≡◌, refl, sym, ap, ◌∙◌, ◌≢◌, ◌↔◌, ◌⊎◌,
  inl, inr, Bool, true, false, not, ◌&&◌, ◌||◌, Option, none, some, List, [], ◌∷◌, ◌++◌, map,
  append-nil, append_assoc, arith, ltb, leb, ◌==◌, if◌then◌else◌, ltb→lt, lt→ltb, leb→le, ==_iff,
  Bool-cases, Option-cases, Bool-ext, and-eq-true, or-eq-true, length, get_elem?, get_or, take,
  drop, replicate, keep_if, any, all, is_nil, length-append, List-cases, drop-append,
  keep_if-append, length-keep_if-le, any-append, Eq, eqb, nat_eq, list_beq, list_beq_iff, list_eq,
  pair_beq, pair_beq_iff, pair_eq, eqb_refl, eqb_sym, contains, contains-append, IsDistinct,
  contains-keep_if, unseen, unseen-cons-le, unseen-cons-lt, Text, codes, is_space, lstrip, rstrip,
  strip, starts_with, starts_with-append, ends_with, has_part, before, split_on, join, rpartition,
  basename,
}
use arvern_ips.Prelude.Dict.{
  Dict, keys, lookup, insert, has_key, set_default, lookup-insert, has_key-insert, has_key-lookup,
  contains-keys, insert-IsDistinct,
}
use arvern_ips.Prelude.Decimal.{
  is_digit, is_number, int, show, int-show, show_injective, is_number-show,
}
use arvern_ips.Prelude.Sorting.{
  text_le, text_le_total, text_le_trans, insert_sorted, sort, IsSorted, length-insert_sorted,
  length-sort, all-sort, sort-IsSorted, contains-insert_sorted, contains-sort,
}
use arvern_ips.Points.Database.{Hit, fields, field_or}
use arvern_ips.Waivers.Match.{Waiver, Point, covers}

-- A point of the accumulated view, with its count.
abbrev pub Counted : Type 0
Counted = Point × ℕ

-- The key of `acc`: `int(d.get('l', 0) or 0)` is the line.
unfoldable pub lint_point : Text → Hit → Point
lint_point key h =
    let l = field_or (codes "l") (fields key) [] in
    record {
      path = h.path;
      line = (if is_nil l then 0 else int l);
      page = h.page;
      sig = field_or (codes "o") (fields key) [];
    }

abbrev pub same_point : Point → Point → Bool
same_point p q = eqb p.path q.path && (p.line == q.line && (eqb p.page q.page && eqb p.sig q.sig))

-- `acc[k] = max(acc.get(k, 0), cnt)`
unfoldable pub add_counted : List Counted → Point → ℕ → List Counted
add_counted [] p cnt = (p, cnt) ∷ []
add_counted ((q, c) ∷ acc) p cnt =
    if same_point q p then (q, max c cnt) ∷ acc else (q, c) ∷ add_counted acc p cnt

unfoldable pub accumulated : List Counted → Dict Text Hit → List Counted
accumulated acc [] = acc
accumulated acc ((key, h) ∷ pts) = accumulated (add_counted acc (lint_point key h) h.count) pts

pub data Finding : Type 0 where
  is_stale : Finding
  is_broad : ℕ → ℕ → Finding
  is_fine : ℕ → Finding

module _ (source : Text → List Text) (search : Text → Text → Bool) where
  -- The inner loop: the points that the waiver matches, and how many of them are covered.
  unfoldable pub lint_counts : Waiver → ℕ × ℕ → List Counted → ℕ × ℕ
  lint_counts w (matched, covered) [] = (matched, covered)
  lint_counts w (matched, covered) ((p, cnt) ∷ ps) =
      lint_counts w
        (if covers source search w p
          then (matched + 1, if cnt == 0 then covered else covered + 1)
          else (matched, covered))
        ps

  unfoldable pub lint_one : Waiver → List Counted → Finding
  lint_one w ps =
      let (matched, covered) = lint_counts w (0, 0) ps in
      if matched == 0
      then is_stale
      else if covered == 0
      then is_fine matched
      else is_broad matched covered

  -- The return value of `lint` on the accumulated points: the number of waivers that need attention.
  unfoldable pub lint : List Waiver → List Counted → ℕ
  lint [] ps = 0
  lint (w ∷ ws) ps = elim (lint_one w ps) [
    | is_stale ↦ suc (lint ws ps)
    | is_broad m c ↦ suc (lint ws ps)
    | is_fine m ↦ lint ws ps
  ]

  -- `lint(waivers, points)`
  unfoldable pub lint_points : List Waiver → Dict Text Hit → ℕ
  lint_points ws pts = lint ws (accumulated [] pts)
