-- ===== src/Filelist/Dedup.antt =====
-- `dedup_lines`: a source file or include directory that is listed twice is emitted once.
pub mod Laws
use arvern_ips.Prelude.{
  ℕ, zero, suc, ◌+◌, ◌-◌, ◌*◌, ◌/◌, ◌%◌, ◌≤◌, ◌<◌, max, min, ◌≡◌, refl, sym, ap, ◌∙◌, ◌≢◌, ◌↔◌, ◌⊎◌,
  inl, inr, Bool, true, false, not, ◌&&◌, ◌||◌, Option, none, some, List, [], ◌∷◌, ◌++◌, map,
  append-nil, append_assoc, arith, ltb, leb, ◌==◌, if◌then◌else◌, ltb→lt, lt→ltb, leb→le, ==_iff,
  Bool-cases, Option-cases, Bool-ext, and-eq-true, or-eq-true, length, get_elem?, get_or, take,
  drop, replicate, keep_if, any, all, is_nil, length-append, List-cases, drop-append,
  keep_if-append, length-keep_if-le, any-append, Eq, eqb, nat_eq, list_beq, list_beq_iff, list_eq,
  pair_beq, pair_beq_iff, pair_eq, eqb_refl, eqb_sym, contains, contains-append, IsDistinct,
  contains-keep_if, unseen, unseen-cons-le, unseen-cons-lt, Text, codes, is_space, lstrip, rstrip,
  strip, starts_with, starts_with-append, ends_with, has_part, before, split_on, join, rpartition,
  basename,
}
use arvern_ips.Prelude.Dict.{
  Dict, keys, lookup, insert, has_key, set_default, lookup-insert, has_key-insert, has_key-lookup,
  contains-keys, insert-IsDistinct,
}
use arvern_ips.Prelude.Decimal.{
  is_digit, is_number, int, show, int-show, show_injective, is_number-show,
}
use arvern_ips.Prelude.Sorting.{
  text_le, text_le_total, text_le_trans, insert_sorted, sort, IsSorted, length-insert_sorted,
  length-sort, all-sort, sort-IsSorted, contains-insert_sorted, contains-sort,
}
use arvern_ips.Filelist.Line.{incdir_mark}

-- A directive other than `+incdir+`: kept however often it stands there.
unfoldable pub is_passthrough : Text → Bool
is_passthrough ln =
    not (starts_with ln incdir_mark) && (starts_with ln (codes "+") || starts_with ln (codes "-"))

-- The loop, from the set `seen`: the lines that are kept, and the number of those dropped.
unfoldable pub dedup_loop : List Text → List Text → List Text × ℕ
dedup_loop seen [] = ([], 0)
dedup_loop seen (ln ∷ lines) =
    let same = dedup_loop seen lines in
    let more = dedup_loop (ln ∷ seen) lines in
    if is_passthrough ln
    then (ln ∷ same.0, same.1)
    else if contains seen ln
    then (same.0, suc same.1)
    else (ln ∷ more.0, more.1)

unfoldable pub dedup_lines : List Text → List Text
dedup_lines lines = (dedup_loop [] lines).0

-- The message on stderr, which is printed if something was dropped.
unfoldable pub dedup_info : List Text → Option Text
dedup_info lines =
    let dropped = (dedup_loop [] lines).1 in
    if dropped == 0
    then none
    else some (
        codes "INFO: flatten_filelist: removed "
        ++ (show dropped
            ++ (codes " duplicate file/incdir entr"
                ++ ((if dropped == 1 then codes "y" else codes "ies") ++ codes "."))))
