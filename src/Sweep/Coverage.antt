-- ===== src/Sweep/Coverage.antt =====
-- ahb_aclint/sim/rtl_sim/bin/coverage.py: the functional-coverage gate over the logs of a run.
pub mod Gate
use arvern_ips.Prelude.{
  ℕ, zero, suc, ◌+◌, ◌-◌, ◌*◌, ◌/◌, ◌%◌, ◌≤◌, ◌<◌, max, min, ◌≡◌, refl, sym, ap, ◌∙◌, ◌≢◌, ◌↔◌, ◌⊎◌,
  inl, inr, Bool, true, false, not, ◌&&◌, ◌||◌, Option, none, some, List, [], ◌∷◌, ◌++◌, map,
  append-nil, append_assoc, arith, ltb, leb, ◌==◌, if◌then◌else◌, ltb→lt, lt→ltb, leb→le, ==_iff,
  Bool-cases, Option-cases, Bool-ext, and-eq-true, or-eq-true, length, get_elem?, get_or, take,
  drop, replicate, keep_if, any, all, is_nil, length-append, List-cases, drop-append,
  keep_if-append, length-keep_if-le, any-append, Eq, eqb, nat_eq, list_beq, list_beq_iff, list_eq,
  pair_beq, pair_beq_iff, pair_eq, eqb_refl, eqb_sym, contains, contains-append, IsDistinct,
  contains-keep_if, unseen, unseen-cons-le, unseen-cons-lt, Text, codes, is_space, lstrip, rstrip,
  strip, starts_with, starts_with-append, ends_with, has_part, before, split_on, join, rpartition,
  basename,
}
use arvern_ips.Prelude.Dict.{
  Dict, keys, lookup, insert, has_key, set_default, lookup-insert, has_key-insert, has_key-lookup,
  contains-keys, insert-IsDistinct,
}
use arvern_ips.Prelude.Decimal.{
  is_digit, is_number, int, show, int-show, show_injective, is_number-show,
}
use arvern_ips.Prelude.Sorting.{
  text_le, text_le_total, text_le_trans, insert_sorted, sort, IsSorted, length-insert_sorted,
  length-sort, all-sort, sort-IsSorted, contains-insert_sorted, contains-sort,
}

abbrev pub marker : Text
marker = codes "COVERAGE HIT:"

-- `text.split(mark, 1)[1]`: what stands behind the first occurrence of `mark`.
unfoldable pub after_mark : Text → Text → Option Text
after_mark mark [] = none
after_mark mark (c ∷ s) =
    if starts_with (c ∷ s) mark then some (drop (length mark) (c ∷ s)) else after_mark mark s

-- `s.split()`: the words between white space. The second argument is the word being read.
unfoldable pub words_from : Text → Text → List Text
words_from word [] = if is_nil word then [] else word ∷ []
words_from word (c ∷ s) =
    let cut = words_from [] s in
    let longer = words_from (word ++ (c ∷ [])) s in
    if is_space c then (if is_nil word then cut else word ∷ cut) else longer

unfoldable pub words : Text → List Text
words = words_from []

unfoldable pub last : List Text → Option Text
last [] = none
last (x ∷ []) = some x
last (x ∷ y ∷ ys) = last (y ∷ ys)

-- The bin that one line of a log names.
unfoldable pub bin_of : Text → Option Text
bin_of line = elim (after_mark marker line) [ none ↦ none | some tail ↦ last (words tail) ]

-- `collect`: the union over all lines of all logs.
unfoldable pub collect_lines : List Text → List Text → List Text
collect_lines hit [] = hit
collect_lines hit (line ∷ rest) =
    collect_lines
      (elim (bin_of line) [ none ↦ hit | some b ↦ if contains hit b then hit else b ∷ hit ]) rest

unfoldable pub collect : List Text → List (List Text) → List Text
collect hit [] = hit
collect hit (log ∷ logs) = collect (collect_lines hit log) logs

-- The three lists of `report`: the bins that count, those missing, and those reported as absent.
pub record Report : Type 0 where
  pub required : List Text
  pub missing : List Text
  pub expected : List Text

module _ (mandatory sweep_only : List Text) where
  unfoldable pub report : List (List Text) → Bool → Report
  report logs single_config =
      let hit = collect [] logs in
      let required = keep_if (λ b. not (single_config && contains sweep_only b)) mandatory in
      record {
        required = required;
        missing = keep_if (λ b. not (contains hit b)) required;
        expected =
            keep_if (λ b. single_config && (contains sweep_only b && not (contains hit b)))
              mandatory;
      }

  unfoldable pub report_lines : List (List Text) → Bool → ℕ → List Text
  report_lines logs single_config width =
      let r = report logs single_config in
      let n = length r.required in
      let rule = replicate width b'=' in
      let verdict : Text =
        if not (is_nil r.missing)
        then codes "  -> coverage FAILED ("
          ++ (show (length r.missing) ++ codes " bin(s) unexercised)")
        else if single_config
        then codes "  -> coverage OK for this config (the gate with teeth is run_all -sweep)"
        else codes "  -> coverage PASSED (all mandatory bins exercised)" in
      rule
      ∷ (codes "  functional coverage -- "
          ++ (show (n - length r.missing)
              ++ (b'/'
                  ∷ (show n
                      ++ (codes " required bins hit ("
                          ++ ((if single_config
                                then codes "default config only"
                                else codes "union across all configs")
                              ++ codes ")"))))))
      ∷ rule
      ∷ (map
            (λ (b : Text).
              codes "  not reachable in this config, covered by run_all -sweep -> " ++ b)
            r.expected
          ++ (map (λ (b : Text). codes "  COVERAGE GAP: required bin never hit -> " ++ b) r.missing
              ++ (verdict ∷ [])))
