-- ===== src/Sweep/Lint.antt =====
-- ahb_aclint/sim/rtl_sim/bin/run_lint_sweep.py: Verilator's lint on every row of the table. The exit
-- status of one Verilator call is the parameter `verilator`.
pub mod Verdict
use arvern_ips.Prelude.{
  ℕ, zero, suc, ◌+◌, ◌-◌, ◌*◌, ◌/◌, ◌%◌, ◌≤◌, ◌<◌, max, min, ◌≡◌, refl, sym, ap, ◌∙◌, ◌≢◌, ◌↔◌, ◌⊎◌,
  inl, inr, Bool, true, false, not, ◌&&◌, ◌||◌, Option, none, some, List, [], ◌∷◌, ◌++◌, map,
  append-nil, append_assoc, arith, ltb, leb, ◌==◌, if◌then◌else◌, ltb→lt, lt→ltb, leb→le, ==_iff,
  Bool-cases, Option-cases, Bool-ext, and-eq-true, or-eq-true, length, get_elem?, get_or, take,
  drop, replicate, keep_if, any, all, is_nil, length-append, List-cases, drop-append,
  keep_if-append, length-keep_if-le, any-append, Eq, eqb, nat_eq, list_beq, list_beq_iff, list_eq,
  pair_beq, pair_beq_iff, pair_eq, eqb_refl, eqb_sym, contains, contains-append, IsDistinct,
  contains-keep_if, unseen, unseen-cons-le, unseen-cons-lt, Text, codes, is_space, lstrip, rstrip,
  strip, starts_with, starts_with-append, ends_with, has_part, before, split_on, join, rpartition,
  basename,
}
use arvern_ips.Prelude.Dict.{
  Dict, keys, lookup, insert, has_key, set_default, lookup-insert, has_key-insert, has_key-lookup,
  contains-keys, insert-IsDistinct,
}
use arvern_ips.Prelude.Decimal.{
  is_digit, is_number, int, show, int-show, show_injective, is_number-show,
}
use arvern_ips.Prelude.Sorting.{
  text_le, text_le_total, text_le_trans, insert_sorted, sort, IsSorted, length-insert_sorted,
  length-sort, all-sort, sort-IsSorted, contains-insert_sorted, contains-sort,
}
use arvern_ips.Params.Select.{Value, ParamDict}
use arvern_ips.Params.Write.{sorted_items, assignment}

unfoldable pub build_g_flags : ParamDict → List Text
build_g_flags overrides =
    map (λ (p : Text × Value). codes "-G" ++ assignment p) (sorted_items overrides)

-- The command of `lint_one`, from the top module, the waiver file and the file list.
unfoldable pub lint_cmd : Text → Text → Text → ParamDict → List Text
lint_cmd top waivers submit overrides =
    codes "verilator"
    ∷ codes "--lint-only"
    ∷ codes "-Wall"
    ∷ codes "-Wpedantic"
    ∷ codes "--top-module"
    ∷ top
    ∷ (build_g_flags overrides ++ (waivers ∷ codes "-f" ∷ submit ∷ []))

unfoldable pub fmt_overrides : ParamDict → Text
fmt_overrides overrides =
    if is_nil overrides
    then codes "(defaults)"
    else join (codes " ") (map assignment (sorted_items overrides))

-- A row of `results`: label, overrides, return code.
pub record LintRun : Type 0 where
  pub label : Text
  pub overrides : ParamDict
  pub rc : ℕ

module _ (verilator : List Text → ℕ) (top waivers submit : Text) where
  unfoldable pub lint_all : List (Text × ParamDict) → List LintRun
  lint_all [] = []
  lint_all ((label, overrides) ∷ configs) =
      record {
        label = label;
        overrides = overrides;
        rc = verilator (lint_cmd top waivers submit overrides);
      }
      ∷ lint_all configs

-- The summary loop: `fail_count`, from its value so far.
unfoldable pub count_failures : ℕ → List LintRun → ℕ
count_failures fail_count [] = fail_count
count_failures fail_count (r ∷ rs) =
    count_failures (if r.rc == 0 then fail_count else fail_count + 1) rs

unfoldable pub total_line : List LintRun → Text
total_line results =
    let fail_count = count_failures 0 results in
    codes "  total: "
    ++ (show (length results)
        ++ (codes "    passed: "
            ++ (show (length results - fail_count) ++ (codes "    failed: " ++ show fail_count))))

unfoldable pub lint_exit : List LintRun → ℕ
lint_exit results = if count_failures 0 results == 0 then 0 else 1
