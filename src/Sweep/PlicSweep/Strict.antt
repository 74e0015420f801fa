-- ===== src/Sweep/PlicSweep/Strict.antt =====
-- The exit status of the sweep of ahb_plic is 0 exactly when every run passed.
use arvern_ips.Prelude.{
  ◌≡◌, refl, ◌∙◌, ◌↔◌, Bool, true, false, ◌&&◌, List, [], ◌∷◌, ◌++◌, arith, if◌then◌else◌, all,
  is_nil, nat_eq, list_eq, pair_eq, contains, Text,
}
use arvern_ips.Params.Select.{ParamDict}
use arvern_ips.Sweep.Coverage.{collect}
use arvern_ips.Sweep.Coverage.Gate.{is_hit, contains-collect}
use arvern_ips.Sweep.Simulate.{
  Status, pass, compile_fail, miss, Tools, SimConfig, Run, same_status, log_lines,
}
use arvern_ips.Sweep.Simulate.Verdict.{is_good, failures-tally, length-keep_if-not}
use arvern_ips.Sweep.PlicSweep.{
  log_status, run_one, run_config, run_all, report_coverage, exit_status,
}

abbrev pub is_pass : Run → Bool
is_pass r = same_status r.status pass

abbrev PassesOrFails : Status → Type 0
PassesOrFails s = is_good s ≡ same_status s pass

log_status_lem : (log : Text) → PassesOrFails (log_status log)
unfolding log_status same_status
log_status_lem log = ground arith

-- The three ways out of a run.
outcome_lem :
    (present compiled : Bool) (log built missing : Text)
    → PassesOrFails
        (if◌then◌else◌ {A = Status × Text} present
          (if◌then◌else◌ {A = Status × Text} compiled (log_status log, log) (compile_fail, built))
          (miss, missing)).0
unfolding same_status
outcome_lem true true log built missing = log_status_lem log
outcome_lem true false log built missing = refl
outcome_lem false compiled log built missing = refl

run_one_lem :
    (tools : Tools) (label : Text) (defines : ParamDict) (test : Text)
    → PassesOrFails (run_one tools label defines test).0
unfolding run_one same_status
run_one_lem tools label defines test = outcome_lem _ _ _ _ _

run_config-good :
    (tools : Tools) (c : SimConfig) (tests : List Text)
    → all (λ (r : Run). is_good r.status) (run_config tools c tests)
      ≡ all is_pass (run_config tools c tests)
unfolding run_config
run_config-good tools c [] = refl
run_config-good tools c (test ∷ tests) =
    rw (run_one_lem tools c.label c.defines test, run_config-good tools c tests) refl

all-append : (p : Run → Bool) (xs ys : List Run) → all p (xs ++ ys) ≡ (all p xs && all p ys)
all-append p [] ys = refl
all-append p (x ∷ xs) ys = ground (arith, all-append p xs ys)

run_all-good :
    (tools : Tools) (configs : List SimConfig)
    → all (λ (r : Run). is_good r.status) (run_all tools configs)
      ≡ all is_pass (run_all tools configs)
unfolding run_all
run_all-good tools [] = refl
run_all-good tools (c ∷ cs) =
    rw
      (
        all-append (λ (r : Run). is_good r.status) (run_config tools c c.test_list)
            (run_all tools cs),
        all-append is_pass (run_config tools c c.test_list) (run_all tools cs),
        run_config-good tools c c.test_list,
        run_all-good tools cs,
      )
      refl

report_coverage-nil :
    (mandatory : List Text) (logs : List (List Text))
    → is_nil (report_coverage mandatory logs) ≡ all (is_hit logs) mandatory
unfolding report_coverage
report_coverage-nil [] logs = refl
report_coverage-nil (b ∷ bs) logs =
    let e : contains (collect [] logs) b ≡ is_hit logs b =
      unfold contains in contains-collect [] logs b in
    ground (arith, e, report_coverage-nil bs logs)

-- The sweep of ahb_plic exits with 0 exactly when every test of every configuration passed (one
-- without a verdict, a stimulus file or a compiled program does not) and some line of the log of
-- some run names each mandatory bin.
pub exit_status-all_pass :
    (tools : Tools) (mandatory : List Text) (configs : List SimConfig)
    → (exit_status tools mandatory configs ≡ 0) ↔ (
        (all is_pass (run_all tools configs) ≡ true)
        × (all (is_hit (log_lines (run_all tools configs))) mandatory ≡ true))
unfolding exit_status
exit_status-all_pass tools mandatory configs =
    let rs = run_all tools configs in
    let sum = failures-tally (λ s. 0) rs in
    let none_bad = length-keep_if-not rs ∙ run_all-good tools configs in
    let gate = report_coverage-nil mandatory (log_lines rs) in
    (λ h. ground (arith, sum, none_bad, gate), λ h. ground (arith, sum, none_bad, gate))
