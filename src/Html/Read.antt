-- ===== src/Html/Read.antt =====
-- ahb_aclint/sim/rtl_sim/bin/cov_html.py: `parse`. A database is its path and its lines; the counts
-- and the line numbers are unsigned decimals, as Verilator writes them.
pub mod Tests
use arvern_ips.Prelude.{
  ℕ, zero, suc, ◌+◌, ◌-◌, ◌*◌, ◌/◌, ◌%◌, ◌≤◌, ◌<◌, max, min, ◌≡◌, refl, sym, ap, ◌∙◌, ◌≢◌, ◌↔◌, ◌⊎◌,
  inl, inr, Bool, true, false, not, ◌&&◌, ◌||◌, Option, none, some, List, [], ◌∷◌, ◌++◌, map,
  append-nil, append_assoc, arith, ltb, leb, ◌==◌, if◌then◌else◌, ltb→lt, lt→ltb, leb→le, ==_iff,
  Bool-cases, Option-cases, Bool-ext, and-eq-true, or-eq-true, length, get_elem?, get_or, take,
  drop, replicate, keep_if, any, all, is_nil, length-append, List-cases, drop-append,
  keep_if-append, length-keep_if-le, any-append, Eq, eqb, nat_eq, list_beq, list_beq_iff, list_eq,
  pair_beq, pair_beq_iff, pair_eq, eqb_refl, eqb_sym, contains, contains-append, IsDistinct,
  contains-keep_if, unseen, unseen-cons-le, unseen-cons-lt, Text, codes, is_space, lstrip, rstrip,
  strip, starts_with, starts_with-append, ends_with, has_part, before, split_on, join, rpartition,
  basename,
}
use arvern_ips.Prelude.Dict.{
  Dict, keys, lookup, insert, has_key, set_default, lookup-insert, has_key-insert, has_key-lookup,
  contains-keys, insert-IsDistinct,
}
use arvern_ips.Prelude.Decimal.{
  is_digit, is_number, int, show, int-show, show_injective, is_number-show,
}
use arvern_ips.Prelude.Sorting.{
  text_le, text_le_total, text_le_trans, insert_sorted, sort, IsSorted, length-insert_sorted,
  length-sort, all-sort, sort-IsSorted, contains-insert_sorted, contains-sort,
}
use arvern_ips.Points.Database.{fields, field_or, cut_count}
use arvern_ips.Points.Scope.{add}

-- `PAGES`
abbrev pub pages : List Text
pages = codes "v_line" ∷ codes "v_branch" ∷ codes "v_toggle" ∷ []

-- `(path, line, page, signal, hier, num, variant)`
abbrev pub Key : Type 0
Key = Text × (ℕ × (Text × (Text × (Text × (Text × Text)))))

-- The value of the dict: the highest count and the tests that hit the point.
pub record Cover : Type 0 where
  pub count : ℕ
  pub tests : List Text

-- A line holds no point, holds one, or its line number is no number: a ValueError.
pub data Parsed : Type 0 where
  skipped : Parsed
  raised : Parsed
  point : Key → ℕ → Parsed

-- The test of a database: its name without `cov_` and the suffix of four characters.
unfoldable pub test_name : Text → Text
test_name fn =
    let name = basename fn in
    let stem = take (length name - 4) name in
    if starts_with name (codes "cov_") then drop 4 stem else stem

unfoldable pub key_of : Dict Text Text → Key
key_of d =
    let l = strip (field_or (codes "l") d (codes "0")) in
    let page_full = field_or (codes "page") d [] in
    (
      field_or (codes "f") d [],
      (
        int l,
        (
          before (codes "/") page_full,
          (
            field_or (codes "o") d [],
            (field_or (codes "h") d [], (field_or (codes "n") d [], page_full)),
          ),
        ),
      ),
    )

unfoldable pub parse_line : List Text → Text → Parsed
parse_line rtl_pats ln =
    let (key, cnt) = cut_count (drop 3 ln) in
    let d = fields key in
    let path = field_or (codes "f") d [] in
    let page = before (codes "/") (field_or (codes "page") d []) in
    if not (starts_with ln (codes "C '")) || not (is_number (strip cnt))
    then skipped
    else if not (any (λ pat. has_part path pat) rtl_pats)
    then skipped
    else if not (contains pages page)
    then skipped
    else if is_number (strip (field_or (codes "l") d (codes "0")))
    then point (key_of d) (int (strip cnt))
    else raised

-- `[0, set()]` for a new key.
unfoldable pub known : Option Cover → Cover
known none = record { count = 0; tests = [] }
known (some e) = e

-- The count and the test are entered.
unfoldable pub bumped : Text → ℕ → Cover → Cover
bumped test c e = record {
  count = max e.count c;
  tests = (if ltb 0 c then add test e.tests else e.tests);
}

unfoldable pub add_point : Text → Dict Key Cover → Key → ℕ → Dict Key Cover
add_point test pts k c = insert k (bumped test c (known (lookup k pts))) pts

-- None where an exception ends the run.
unfoldable pub parse_lines : List Text → Text → Dict Key Cover → List Text → Option (Dict Key Cover)
parse_lines rtl_pats test pts [] = some pts
parse_lines rtl_pats test pts (ln ∷ lns) = elim (parse_line rtl_pats ln) [
  | skipped ↦ parse_lines rtl_pats test pts lns
  | raised ↦ none
  | point k c ↦ parse_lines rtl_pats test (add_point test pts k c) lns
]

unfoldable pub parse_files :
    List Text → Dict Key Cover → List (Text × List Text) → Option (Dict Key Cover)
parse_files rtl_pats pts [] = some pts
parse_files rtl_pats pts ((fn, lns) ∷ dats) = elim (parse_lines rtl_pats (test_name fn) pts lns) [
  | none ↦ none
  | some pts' ↦ parse_files rtl_pats pts' dats
]

-- `parse`
unfoldable pub parse : List Text → List (Text × List Text) → Option (Dict Key Cover)
parse rtl_pats dats = parse_files rtl_pats [] dats
