-- ===== src/Waivers/Fold.antt =====
-- `_digit_class` and `_combine_bits`: the uncovered bits of a bus as few globs.
pub mod Exact
use arvern_ips.Prelude.{
  ℕ, zero, suc, ◌+◌, ◌-◌, ◌*◌, ◌/◌, ◌%◌, ◌≤◌, ◌<◌, max, min, ◌≡◌, refl, sym, ap, ◌∙◌, ◌≢◌, ◌↔◌, ◌⊎◌,
  inl, inr, Bool, true, false, not, ◌&&◌, ◌||◌, Option, none, some, List, [], ◌∷◌, ◌++◌, map,
  append-nil, append_assoc, arith, ltb, leb, ◌==◌, if◌then◌else◌, ltb→lt, lt→ltb, leb→le, ==_iff,
  Bool-cases, Option-cases, Bool-ext, and-eq-true, or-eq-true, length, get_elem?, get_or, take,
  drop, replicate, keep_if, any, all, is_nil, length-append, List-cases, drop-append,
  keep_if-append, length-keep_if-le, any-append, Eq, eqb, nat_eq, list_beq, list_beq_iff, list_eq,
  pair_beq, pair_beq_iff, pair_eq, eqb_refl, eqb_sym, contains, contains-append, IsDistinct,
  contains-keep_if, unseen, unseen-cons-le, unseen-cons-lt, Text, codes, is_space, lstrip, rstrip,
  strip, starts_with, starts_with-append, ends_with, has_part, before, split_on, join, rpartition,
  basename,
}
use arvern_ips.Prelude.Dict.{
  Dict, keys, lookup, insert, has_key, set_default, lookup-insert, has_key-insert, has_key-lookup,
  contains-keys, insert-IsDistinct,
}
use arvern_ips.Prelude.Decimal.{
  is_digit, is_number, int, show, int-show, show_injective, is_number-show,
}
use arvern_ips.Prelude.Sorting.{
  text_le, text_le_total, text_le_trans, insert_sorted, sort, IsSorted, length-insert_sorted,
  length-sort, all-sort, sort-IsSorted, contains-insert_sorted, contains-sort,
}
use arvern_ips.Waivers.Glob.{fnmatch, glob_literal}

-- One run of digits in a class: at least three are written as a range.
unfoldable pub run_text : ℕ → ℕ → Text
run_text lo hi =
    if leb 2 (hi - lo)
    then show lo ++ (b'-' ∷ show hi)
    else if lo == hi
    then show lo
    else show lo ++ show hi

-- The loop over the sorted digits, inside a run that goes from `lo` to `hi` so far.
unfoldable pub class_from : ℕ → ℕ → List ℕ → Text
class_from lo hi [] = run_text lo hi
class_from lo hi (d ∷ ds) =
    let longer = class_from lo d ds in
    let cut = run_text lo hi ++ class_from d d ds in if d == hi + 1 then longer else cut

-- `sorted(set(xs))`
unfoldable pub distinct : List ℕ → List ℕ
distinct [] = []
distinct (x ∷ xs) = let rest = distinct xs in if contains xs x then rest else x ∷ rest

unfoldable pub digit_class : List ℕ → Text
digit_class digits = elim (sort leb (distinct digits)) [ [] ↦ [] | d ∷ ds ↦ class_from d d ds ]

-- `t[:-1]` and `t[-1]` of a decimal numeral: 10 * a + b is written as a, if it is not 0, and b.
unfoldable pub group_key : ℕ → Text
group_key b = if ltb b 10 then [] else show (b / 10)

unfoldable pub group_bits : Dict Text (List ℕ) → List ℕ → Dict Text (List ℕ)
group_bits groups [] = groups
group_bits groups (b ∷ want) =
    let t = group_key b in
    let old : List ℕ = elim (lookup t groups) [ some ds ↦ ds | none ↦ [] ] in
    group_bits (insert t (old ++ ((b % 10) ∷ [])) groups) want

-- One digit stands for itself, several are a class.
unfoldable pub last_digits : List ℕ → Text
last_digits (d ∷ []) = show d
last_digits ds = codes "[" ++ (digit_class ds ++ codes "]")

unfoldable pub group_glob : Text → Text × List ℕ → Text
group_glob base (prefix, lasts) =
    let cls = last_digits (sort leb (distinct lasts)) in
    glob_literal base ++ (codes "[[]" ++ (prefix ++ (cls ++ codes "]")))

-- `'%s[%d]' % (base, b)`
unfoldable pub bit_name : Text → ℕ → Text
bit_name base b = base ++ (b'[' ∷ (show b ++ codes "]"))

abbrev pub any_glob : List Text → Text → Bool
any_glob globs name = any (fnmatch name) globs

unfoldable pub folded_globs : Text → List ℕ → List Text
folded_globs base want =
    map (group_glob base)
      (sort (λ (p : Text × List ℕ) (q : Text × List ℕ). text_le p.0 q.0) (group_bits [] want))

-- The globs, if they select the wanted bits and no other of those present.
unfoldable pub combine_bits : Text → List ℕ → List ℕ → Option (List Text)
combine_bits base want present =
    let globs = folded_globs base want in
    let hit = keep_if (λ b. any_glob globs (bit_name base b)) present in
    if all (contains want) hit && all (contains hit) want then some globs else none

-- The fallback of `suggest_entries`: one glob for each bit.
unfoldable pub bit_globs : Text → List ℕ → List Text
bit_globs base want =
    map (λ b. glob_literal base ++ (codes "[[]" ++ (show b ++ codes "]"))) (sort leb want)

-- The globs that `suggest_entries` writes for one signal.
unfoldable pub signal_globs : Text → List ℕ → List ℕ → List Text
signal_globs base want present = elim (combine_bits base (sort leb want) (sort leb present)) [
  | some globs ↦ globs
  | none ↦ bit_globs base want
]
