-- ===== src/Filelist/Relative.antt =====
-- `relativize_lines`: absolute entries are rewritten relative to a directory. `relpath` with its
-- helpers is `os.path.relpath` of Python, on absolute paths.
pub mod RoundTrip
use arvern_ips.Prelude.{
  ℕ, zero, suc, ◌+◌, ◌-◌, ◌*◌, ◌/◌, ◌%◌, ◌≤◌, ◌<◌, max, min, ◌≡◌, refl, sym, ap, ◌∙◌, ◌≢◌, ◌↔◌, ◌⊎◌,
  inl, inr, Bool, true, false, not, ◌&&◌, ◌||◌, Option, none, some, List, [], ◌∷◌, ◌++◌, map,
  append-nil, append_assoc, arith, ltb, leb, ◌==◌, if◌then◌else◌, ltb→lt, lt→ltb, leb→le, ==_iff,
  Bool-cases, Option-cases, Bool-ext, and-eq-true, or-eq-true, length, get_elem?, get_or, take,
  drop, replicate, keep_if, any, all, is_nil, length-append, List-cases, drop-append,
  keep_if-append, length-keep_if-le, any-append, Eq, eqb, nat_eq, list_beq, list_beq_iff, list_eq,
  pair_beq, pair_beq_iff, pair_eq, eqb_refl, eqb_sym, contains, contains-append, IsDistinct,
  contains-keep_if, unseen, unseen-cons-le, unseen-cons-lt, Text, codes, is_space, lstrip, rstrip,
  strip, starts_with, starts_with-append, ends_with, has_part, before, split_on, join, rpartition,
  basename,
}
use arvern_ips.Prelude.Dict.{
  Dict, keys, lookup, insert, has_key, set_default, lookup-insert, has_key-insert, has_key-lookup,
  contains-keys, insert-IsDistinct,
}
use arvern_ips.Prelude.Decimal.{
  is_digit, is_number, int, show, int-show, show_injective, is_number-show,
}
use arvern_ips.Prelude.Sorting.{
  text_le, text_le_total, text_le_trans, insert_sorted, sort, IsSorted, length-insert_sorted,
  length-sort, all-sort, sort-IsSorted, contains-insert_sorted, contains-sort,
}
use arvern_ips.Filelist.Line.{incdir_mark}
use arvern_ips.Filelist.Flatten.{Disk}

-- The names on a path: `[x for x in path.split('/') if x]`.
unfoldable pub parts : Text → List Text
parts p = keep_if (λ name. not (is_nil name)) (split_on b'/' p)

-- The length of the common prefix of two lists of names.
unfoldable pub common : List Text → List Text → ℕ
common (x ∷ xs) (y ∷ ys) = if eqb x y then suc (common xs ys) else 0
common _ _ = 0

-- Python's `os.path.relpath`, on the names of two absolute, normalised paths.
unfoldable pub rel_parts : List Text → List Text → List Text
rel_parts path start =
    let i = common start path in replicate (length start - i) (codes "..") ++ drop i path

unfoldable pub relpath : Text → Text → Text
relpath path start =
    let rel = rel_parts (parts path) (parts start) in
    if is_nil rel then codes "." else join (codes "/") rel

module _ (disk : Disk) where
  -- `_rel`
  unfoldable pub rel : Text → Text → Text
  rel base p = relpath (disk.resolve p) base

  unfoldable pub relativize_line : Text → Text → Text
  relativize_line base ln =
      let inc = drop 8 ln in
      if starts_with ln incdir_mark
      then incdir_mark ++ (if starts_with inc (codes "./") then inc else rel base inc)
      else if starts_with ln (codes "+") || starts_with ln (codes "-")
      then ln
      else if starts_with ln (codes "./")
      then ln
      else rel base ln

  unfoldable pub relativize_lines : List Text → Text → List Text
  relativize_lines lines dir = map (relativize_line (disk.resolve dir)) lines
