-- ===== src/Points/Database.antt =====
-- ahb_aclint/sim/rtl_sim/bin/cov_report.py: `parse`. The databases are lists of lines; the counts are
-- unsigned decimals, as Verilator writes them.
pub mod Directions
pub mod Union
use arvern_ips.Prelude.{
  ℕ, zero, suc, ◌+◌, ◌-◌, ◌*◌, ◌/◌, ◌%◌, ◌≤◌, ◌<◌, max, min, ◌≡◌, refl, sym, ap, ◌∙◌, ◌≢◌, ◌↔◌, ◌⊎◌,
  inl, inr, Bool, true, false, not, ◌&&◌, ◌||◌, Option, none, some, List, [], ◌∷◌, ◌++◌, map,
  append-nil, append_assoc, arith, ltb, leb, ◌==◌, if◌then◌else◌, ltb→lt, lt→ltb, leb→le, ==_iff,
  Bool-cases, Option-cases, Bool-ext, and-eq-true, or-eq-true, length, get_elem?, get_or, take,
  drop, replicate, keep_if, any, all, is_nil, length-append, List-cases, drop-append,
  keep_if-append, length-keep_if-le, any-append, Eq, eqb, nat_eq, list_beq, list_beq_iff, list_eq,
  pair_beq, pair_beq_iff, pair_eq, eqb_refl, eqb_sym, contains, contains-append, IsDistinct,
  contains-keep_if, unseen, unseen-cons-le, unseen-cons-lt, Text, codes, is_space, lstrip, rstrip,
  strip, starts_with, starts_with-append, ends_with, has_part, before, split_on, join, rpartition,
  basename,
}
use arvern_ips.Prelude.Dict.{
  Dict, keys, lookup, insert, has_key, set_default, lookup-insert, has_key-insert, has_key-lookup,
  contains-keys, insert-IsDistinct,
}
use arvern_ips.Prelude.Decimal.{
  is_digit, is_number, int, show, int-show, show_injective, is_number-show,
}
use arvern_ips.Prelude.Sorting.{
  text_le, text_le_total, text_le_trans, insert_sorted, sort, IsSorted, length-insert_sorted,
  length-sort, all-sort, sort-IsSorted, contains-insert_sorted, contains-sort,
}

-- The value of the dict: `(page, file, count)`.
pub record Hit : Type 0 where
  pub page : Text
  pub path : Text
  pub count : ℕ

-- `fld.split('\x02', 1)`, where the separator occurs.
unfoldable pub split_pair : Text → Option (Text × Text)
split_pair [] = none
split_pair (c ∷ s) =
    let later = split_pair s in
    if c == 2 then some ([], s) else elim later [ none ↦ none | some (k, v) ↦ some (c ∷ k, v) ]

unfoldable pub add_fields : Dict Text Text → List Text → Dict Text Text
add_fields d [] = d
add_fields d (fld ∷ flds) = elim (split_pair fld) [
  | none ↦ add_fields d flds
  | some (k, v) ↦ add_fields (insert k v d) flds
]

-- The fields of a key.
unfoldable pub fields : Text → Dict Text Text
fields key = add_fields [] (split_on 1 key)

unfoldable pub field_or : Text → Dict Text Text → Text → Text
field_or k d dflt = elim (lookup k d) [ none ↦ dflt | some v ↦ v ]

-- `s.rpartition("' ")`, but for the separator: nothing in front where it does not occur.
unfoldable pub cut_count : Text → Text × Text
cut_count [] = ([], [])
cut_count (c ∷ s) =
    let (key, cnt) = cut_count s in
    if has_part s (codes "' ")
    then (c ∷ key, cnt)
    else if starts_with (c ∷ s) (codes "' ")
    then ([], drop 2 (c ∷ s))
    else ([], c ∷ s)

-- One line of a database: the key, and what it says of the point.
unfoldable pub parse_line : List Text → Text → Option (Text × Hit)
parse_line rtl_pats ln =
    let (key, cnt) = cut_count (drop 3 ln) in
    let d = fields key in
    let path = field_or (codes "f") d [] in
    let page = before (codes "/") (field_or (codes "page") d []) in
    if starts_with ln (codes "C '")
      && (is_number (strip cnt) && any (λ pat. has_part path pat) rtl_pats)
    then some (key, record { page = page; path = path; count = int (strip cnt) })
    else none

-- `pts[key] = (page, path, max(prev[2], c) if prev else c)`
unfoldable pub add_point : Dict Text Hit → Text → Hit → Dict Text Hit
add_point pts key h = elim (lookup key pts) [
  | none ↦ insert key h pts
  | some prev ↦ insert key (record h { count = max prev.count h.count }) pts
]

unfoldable pub parse_lines : List Text → Dict Text Hit → List Text → Dict Text Hit
parse_lines rtl_pats pts [] = pts
parse_lines rtl_pats pts (ln ∷ lns) = elim (parse_line rtl_pats ln) [
  | none ↦ parse_lines rtl_pats pts lns
  | some (key, h) ↦ parse_lines rtl_pats (add_point pts key h) lns
]

-- `_DIR` matches here.
unfoldable pub at_direction : Text → Bool
at_direction s =
    (starts_with s (codes ":0->1") || starts_with s (codes ":1->0"))
    && (is_nil (drop 5 s) || starts_with (drop 5 s) (1 ∷ []))

-- `_DIR.sub('', key)`. The number counts the characters of a match that are left.
unfoldable pub undirected : ℕ → Text → Text
undirected skip [] = []
undirected zero (c ∷ s) =
    let cut = undirected 4 s in
    let kept = undirected 0 s in if at_direction (c ∷ s) then cut else c ∷ kept
undirected (suc skip) (c ∷ s) = undirected skip s

-- One point of `pts` goes into `folded`.
unfoldable pub fold_point : Dict Text Hit → Text → Hit → Dict Text Hit
fold_point folded key h =
    let base = undirected 0 key in
    if eqb base key then insert key h folded else elim (lookup base folded) [
      | none ↦ insert base h folded
      | some prev ↦ insert base (record h { count = min prev.count h.count }) folded
    ]

unfoldable pub fold_directions : Dict Text Hit → Dict Text Hit → Dict Text Hit
fold_directions folded [] = folded
fold_directions folded ((key, h) ∷ pts) = fold_directions (fold_point folded key h) pts

unfoldable pub has_column : Hit → Bool
has_column h = eqb h.page (codes "v_line") || eqb h.page (codes "v_branch")

unfoldable pub same_field : Option Text → Option Text → Bool
same_field none none = true
same_field (some x) (some y) = eqb x y
same_field _ _ = false

-- Two points on one line with one label.
unfoldable pub is_twin : Text × Hit → Text × Hit → Bool
is_twin (key, h) (key', h') =
    let d = fields key in
    let d' = fields key' in
    has_column h'
    && (eqb h.path h'.path
        && (same_field (lookup (codes "l") d) (lookup (codes "l") d')
            && same_field (lookup (codes "o") d) (lookup (codes "o") d')))

-- `len(cols[(path, l, o)]) > 1`: some twin stands in another column.
unfoldable pub has_other_column : Dict Text Hit → Text × Hit → Bool
has_other_column folded (key, h) =
    any
      (λ q.
        is_twin (key, h) q
        && not (same_field (lookup (codes "n") (fields key)) (lookup (codes "n") (fields q.0))))
      folded

-- `'%s' % d.get(k)`
unfoldable pub show_field : Option Text → Text
show_field none = codes "None"
show_field (some v) = v

-- `s.replace(part, by, 1)` where `part` occurs and is not empty.
unfoldable pub replace_first : Text → Text → Text → Text
replace_first part by [] = []
replace_first part by (c ∷ s) =
    let later = replace_first part by s in
    if starts_with (c ∷ s) part then by ++ drop (length part) (c ∷ s) else c ∷ later

unfoldable pub columned : Text → Text
columned key =
    let o = show_field (lookup (codes "o") (fields key)) in
    let n = show_field (lookup (codes "n") (fields key)) in
    let label : Text = 1 ∷ b'o' ∷ 2 ∷ (o ++ (1 ∷ [])) in
    if has_part key label
    then replace_first label (1 ∷ b'o' ∷ 2 ∷ (o ++ (b'@' ∷ (n ++ (1 ∷ []))))) key
    else key ++ (b'@' ∷ n)

unfoldable pub name_columns : Dict Text Hit → Dict Text Hit → Dict Text Hit → Dict Text Hit
name_columns folded out [] = out
name_columns folded out ((key, h) ∷ pts) =
    let key' = if has_column h && has_other_column folded (key, h) then columned key else key in
    name_columns folded (insert key' h out) pts

-- `parse`
unfoldable pub parse : List Text → List Text → Dict Text Hit
parse rtl_pats lns =
    let folded = fold_directions [] (parse_lines rtl_pats [] lns) in name_columns folded [] folded
