-- ===== src/Sweep/PlicSweep.antt =====
-- ahb_plic/sim/rtl_sim/bin/run_sweep.py: `run_one` and `main`, where they differ from those of
-- ahb_aclint: no test can declare itself skipped, and the coverage gate stands in the same file.
pub mod Strict
use arvern_ips.Prelude.{
  ℕ, zero, suc, ◌+◌, ◌-◌, ◌*◌, ◌/◌, ◌%◌, ◌≤◌, ◌<◌, max, min, ◌≡◌, refl, sym, ap, ◌∙◌, ◌≢◌, ◌↔◌, ◌⊎◌,
  inl, inr, Bool, true, false, not, ◌&&◌, ◌||◌, Option, none, some, List, [], ◌∷◌, ◌++◌, map,
  append-nil, append_assoc, arith, ltb, leb, ◌==◌, if◌then◌else◌, ltb→lt, lt→ltb, leb→le, ==_iff,
  Bool-cases, Option-cases, some_injective, Bool-ext, and-eq-true, or-eq-true, length, get_elem?,
  get_or, take, drop, replicate, keep_if, any, all, is_nil, length-append, List-cases, drop-append,
  keep_if-append, length-keep_if-le, any-append, Eq, eqb, nat_eq, list_beq, list_beq_iff, list_eq,
  pair_beq, pair_beq_iff, pair_eq, eqb_refl, eqb_sym, contains, contains-append, IsDistinct,
  contains-keep_if, unseen, unseen-cons-le, unseen-cons-lt, Text, codes, is_space, lstrip, rstrip,
  strip, starts_with, starts_with-append, ends_with, has_part, before, split_on, join, rpartition,
  basename,
}
use arvern_ips.Prelude.Dict.{
  Dict, keys, lookup, insert, has_key, set_default, lookup-insert, has_key-insert, has_key-lookup,
  contains-keys, insert-IsDistinct,
}
use arvern_ips.Prelude.Decimal.{
  is_digit, is_number, int, show, int-show, show_injective, is_number-show,
}
use arvern_ips.Prelude.Sorting.{
  text_le, text_le_total, text_le_trans, insert_sorted, sort, IsSorted, length-insert_sorted,
  length-sort, all-sort, sort-IsSorted, contains-insert_sorted, contains-sort,
}
use arvern_ips.Filelist.Emit.{pad_right}
use arvern_ips.Params.Select.{Value, ParamDict}
use arvern_ips.Params.Write.{sorted_items, assignment}
use arvern_ips.Sweep.Coverage.{collect}
use arvern_ips.Sweep.Simulate.{
  Status, pass, fail, skip, compile_fail, inconclusive, miss, Tools, compile_cmd, log_head,
  SimConfig, Run, Counts, tally, log_lines,
}

-- The verdict from the text of the log.
unfoldable pub log_status : Text → Status
log_status log =
    if has_part log (codes "SIMULATION PASSED")
    then pass
    else if has_part log (codes "SIMULATION FAILED")
    then fail
    else inconclusive

-- The status of one test in one configuration, and its log.
unfoldable pub run_one : Tools → Text → ParamDict → Text → Status × Text
run_one tools config_label defines test =
    let cmd = compile_cmd tools defines (tools.seed config_label test) in
    let (rc, compiled) = tools.compile cmd in
    let built = log_head config_label defines test cmd ++ compiled in
    let log = built ++ (replicate 78 b'-' ++ (codes " RUN\n" ++ tools.simulate cmd)) in
    if tools.has_stimulus test
    then (if rc == 0 then (log_status log, log) else (compile_fail, built))
    else (miss, codes "SKIP: stimulus file not found: ../src/" ++ (test ++ codes ".v\n"))

unfoldable pub run_config : Tools → SimConfig → List Text → List Run
run_config tools c [] = []
run_config tools c (test ∷ tests) =
    let (status, log) = run_one tools c.label c.defines test in
    record { config = c.label; test = test; status = status; log = log } ∷ run_config tools c tests

unfoldable pub run_all : Tools → List SimConfig → List Run
run_all tools [] = []
run_all tools (c ∷ cs) = run_config tools c c.test_list ++ run_all tools cs

unfoldable pub fmt_defines : ParamDict → Text
fmt_defines [] = codes "(defaults)"
fmt_defines (d ∷ ds) = join (codes " ") (map assignment (sorted_items (d ∷ ds)))

unfoldable pub status_text : Status → Text
status_text pass = codes "PASS"
status_text fail = codes "FAIL"
status_text skip = codes "SKIP"
status_text compile_fail = codes "COMPILE_FAIL"
status_text inconclusive = codes "INCONCLUSIVE"
status_text miss = codes "MISS"

unfoldable pub total_line : List Run → Text
total_line results =
    let counts = tally (λ s. 0) results in
    codes "  total: "
    ++ (show (length results)
        ++ (codes "    passed: "
            ++ (show (counts pass)
                ++ (codes "    failed: "
                    ++ (show (counts fail)
                        ++ (codes "    compile-fail: "
                            ++ (show (counts compile_fail)
                                ++ (codes "    missing: " ++ show (counts miss)))))))))

-- The bins that no log names.
unfoldable pub report_coverage : List Text → List (List Text) → List Text
report_coverage mandatory logs = keep_if (λ b. not (contains (collect [] logs) b)) mandatory

-- The lines of `report_coverage`.
unfoldable pub coverage_lines : List Text → List (List Text) → List Text
coverage_lines mandatory logs =
    let missing = report_coverage mandatory logs in
    let rule = replicate 90 b'=' in
    let n = length mandatory in
    rule
    ∷ (codes "  functional coverage gate -- "
        ++ (show (n - length missing)
            ++ (b'/' ∷ (show n ++ codes " mandatory bins hit (union across all configs)"))))
    ∷ rule
    ∷ (if is_nil missing
        then codes "  -> coverage PASSED (all mandatory bins exercised)" ∷ []
        else map
            (λ (b : Text). codes "  COVERAGE GAP: mandatory bin never hit in any config -> " ++ b)
            missing
          ++ ((codes "  -> coverage FAILED ("
                ++ (show (length missing) ++ codes " bin(s) unexercised)"))
              ∷ []))

-- The exit status: `failed == 0` and no missing bin.
unfoldable pub exit_status : Tools → List Text → List SimConfig → ℕ
exit_status tools mandatory configs =
    let results = run_all tools configs in
    let counts = tally (λ s. 0) results in
    let failed = counts fail + counts compile_fail + counts inconclusive + counts miss in
    if failed == 0 && is_nil (report_coverage mandatory (log_lines results)) then 0 else 1
