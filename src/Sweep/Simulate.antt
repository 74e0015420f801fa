-- ===== src/Sweep/Simulate.antt =====
-- ahb_aclint/sim/rtl_sim/bin/run_sweep.py: `run_one` and `main`. What the tools do is the parameter
-- `Tools`: whether a stimulus file is there, the random seed, the exit status and output of the
-- compiler, and the output of the simulation.
pub mod Verdict
use arvern_ips.Prelude.{
  ℕ, zero, suc, ◌+◌, ◌-◌, ◌*◌, ◌/◌, ◌%◌, ◌≤◌, ◌<◌, max, min, ◌≡◌, refl, sym, ap, ◌∙◌, ◌≢◌, ◌↔◌, ◌⊎◌,
  inl, inr, Bool, true, false, not, ◌&&◌, ◌||◌, Option, none, some, List, [], ◌∷◌, ◌++◌, map,
  append-nil, append_assoc, arith, ltb, leb, ◌==◌, if◌then◌else◌, ltb→lt, lt→ltb, leb→le, ==_iff,
  Bool-cases, Option-cases, Bool-ext, and-eq-true, or-eq-true, length, get_elem?, get_or, take,
  drop, replicate, keep_if, any, all, is_nil, length-append, List-cases, drop-append,
  keep_if-append, length-keep_if-le, any-append, Eq, eqb, nat_eq, list_beq, list_beq_iff, list_eq,
  pair_beq, pair_beq_iff, pair_eq, eqb_refl, eqb_sym, contains, contains-append, IsDistinct,
  contains-keep_if, unseen, unseen-cons-le, unseen-cons-lt, Text, codes, is_space, lstrip, rstrip,
  strip, starts_with, starts_with-append, ends_with, has_part, before, split_on, join, rpartition,
  basename,
}
use arvern_ips.Prelude.Dict.{
  Dict, keys, lookup, insert, has_key, set_default, lookup-insert, has_key-insert, has_key-lookup,
  contains-keys, insert-IsDistinct,
}
use arvern_ips.Prelude.Decimal.{
  is_digit, is_number, int, show, int-show, show_injective, is_number-show,
}
use arvern_ips.Prelude.Sorting.{
  text_le, text_le_total, text_le_trans, insert_sorted, sort, IsSorted, length-insert_sorted,
  length-sort, all-sort, sort-IsSorted, contains-insert_sorted, contains-sort,
}
use arvern_ips.Params.Select.{Value, ParamDict}
use arvern_ips.Params.Write.{sorted_items, assignment}
use arvern_ips.Sweep.Coverage.{report, Report}

pub data Status : Type 0 where
  pass fail skip compile_fail inconclusive miss : Status

-- The outside of a run. The simulator finds the test through the link `stimulus.v`, which
-- `setup_stimulus` sets; here the seed, which a configuration and a test have to themselves, stands
-- for it in the options of the compiler.
pub record Tools : Type 0 where
  pub has_stimulus : Text → Bool
  pub seed : Text → Text → ℕ
  pub submit_file : Text
  pub compile : List Text → ℕ × Text
  pub simulate : List Text → Text

-- The `-D` options: the defines in the order of their names, then the seed and NODUMP.
unfoldable pub build_d_flags : ParamDict → ℕ → List Text
build_d_flags defines seed =
    map (λ (d : Text × Value). codes "-D" ++ assignment d) (sorted_items defines)
    ++ ((codes "-DSEED=" ++ show seed) ∷ codes "-DNODUMP" ∷ [])

unfoldable pub compile_cmd : Tools → ParamDict → ℕ → List Text
compile_cmd tools defines seed =
    codes "iverilog"
    ∷ codes "-o"
    ∷ codes "simv"
    ∷ codes "-c"
    ∷ tools.submit_file
    ∷ build_d_flags defines seed

-- What `run_one` itself writes to the log before the compiler runs.
unfoldable pub log_head : Text → ParamDict → Text → List Text → Text
log_head config_label defines test cmd =
    codes "CONFIG: "
    ++ (config_label
        ++ (codes "\nDEFINES: "
            ++ (join (codes " ") (map assignment (sorted_items defines))
                ++ (codes "\nTEST: "
                    ++ (test
                        ++ (codes "\nCMD: "
                            ++ (join (codes " ") cmd
                                ++ (codes "\n" ++ (replicate 78 b'-' ++ codes "\n")))))))))

-- The verdict from the text of the log.
unfoldable pub log_status : Text → Status
log_status log =
    if has_part log (codes "SIMULATION PASSED")
    then pass
    else if has_part log (codes "SIMULATION FAILED")
    then fail
    else if has_part log (codes "SIMULATION SKIPPED")
    then skip
    else inconclusive

-- The status of one test in one configuration, and its log.
unfoldable pub run_one : Tools → Text → ParamDict → Text → Status × Text
run_one tools config_label defines test =
    let cmd = compile_cmd tools defines (tools.seed config_label test) in
    let (rc, compiled) = tools.compile cmd in
    let built = log_head config_label defines test cmd ++ compiled in
    let log = built ++ (replicate 78 b'-' ++ (codes " RUN\n" ++ tools.simulate cmd)) in
    if tools.has_stimulus test
    then (if rc == 0 then (log_status log, log) else (compile_fail, built))
    else (miss, codes "SKIP: stimulus file not found: ../src/" ++ (test ++ codes ".v\n"))

-- A row of `SIM_CONFIGS`.
pub record SimConfig : Type 0 where
  pub label : Text
  pub defines : ParamDict
  pub test_list : List Text

-- A row of `all_results`.
pub record Run : Type 0 where
  pub config : Text
  pub test : Text
  pub status : Status
  pub log : Text

unfoldable pub run_config : Tools → SimConfig → List Text → List Run
run_config tools c [] = []
run_config tools c (test ∷ tests) =
    let (status, log) = run_one tools c.label c.defines test in
    record { config = c.label; test = test; status = status; log = log } ∷ run_config tools c tests

unfoldable pub run_all : Tools → List SimConfig → List Run
run_all tools [] = []
run_all tools (c ∷ cs) = run_config tools c c.test_list ++ run_all tools cs

unfoldable pub same_status : Status → Status → Bool
same_status pass pass = true
same_status fail fail = true
same_status skip skip = true
same_status compile_fail compile_fail = true
same_status inconclusive inconclusive = true
same_status miss miss = true
same_status _ _ = false

-- `counts`, as a number for each status: all start at 0.
abbrev pub Counts : Type 0
Counts = Status → ℕ

unfoldable pub count : Counts → Status → Counts
count counts s t = if same_status s t then counts t + 1 else counts t

unfoldable pub tally : Counts → List Run → Counts
tally counts [] = counts
tally counts (r ∷ rs) = tally (count counts r.status) rs

-- `text.splitlines()`. Reading a file has turned each return into a newline before.
unfoldable pub is_break : ℕ → Bool
is_break c =
    (leb 10 c && leb c 13) || (leb 28 c && leb c 30) || c == 0x85 || c == 0x2028 || c == 0x2029

unfoldable pub split_lines : Text → Text → List Text
split_lines line [] = if is_nil line then [] else line ∷ []
split_lines line (c ∷ s) =
    let cut = split_lines [] s in
    let longer = split_lines (line ++ (c ∷ [])) s in if is_break c then line ∷ cut else longer

abbrev pub log_lines : List Run → List (List Text)
log_lines = map (λ (r : Run). split_lines [] r.log)

-- The exit status: `failed == 0` and no missing bin.
unfoldable pub exit_status : Tools → List Text → List Text → List SimConfig → ℕ
exit_status tools mandatory sweep_only configs =
    let results = run_all tools configs in
    let counts = tally (λ s. 0) results in
    let missing = (report mandatory sweep_only (log_lines results) false).missing in
    let failed = counts fail + counts compile_fail + counts inconclusive + counts miss in
    if failed == 0 && is_nil missing then 0 else 1
