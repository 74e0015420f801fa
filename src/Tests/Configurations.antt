-- ===== src/Tests/Configurations.antt =====
-- Examples of the theorems on configurations and sweeps.
use arvern_ips.Prelude.{
  ℕ, ◌+◌, ◌≤◌, ◌≡◌, refl, ◌≢◌, ◌↔◌, true, false, not, ◌&&◌, Option, none, some, List, [], ◌∷◌, ◌==◌,
  if◌then◌else◌, length, get_elem?, keep_if, all, nat_eq, list_beq, list_eq, pair_eq, contains,
  IsDistinct, Text, codes, ends_with, eqb, ◌++◌,
}
use arvern_ips.Prelude.Dict.{keys, lookup, has_key}
use arvern_ips.Prelude.Decimal.{is_digit, is_number, show}
use arvern_ips.Params.Select.{
  number, ParamDict, Config, unknown_config, out_of_range, ok, err, labels, resolve,
}
use arvern_ips.Params.Select.Lookup.{resolve-show, resolve-label}
use arvern_ips.Params.Write.{effective, write_params}
use arvern_ips.Params.Write.Settings.{is_name, rtl_param, show_all, tcl_value}
use arvern_ips.Params.Write.Reset.{IsParamDict, write_params-tcl_value, write_params_sync}
use arvern_ips.Params.Write.Elaborate.{arguments, quoted, holds, write_params-arguments}
use arvern_ips.Params.Tables.{ahb_plic, entries, configs, entries-resolve}
use arvern_ips.Sweep.Coverage.{report}
use arvern_ips.Sweep.Coverage.Gate.{is_hit, report-missing}
use arvern_ips.Sweep.Simulate.{Tools, run_all, log_lines, exit_status}
use arvern_ips.Sweep.Simulate.Verdict.{is_good, exit_status-eq-zero}
use arvern_ips.Sweep.Lint.{lint_cmd, lint_all, count_failures, lint_exit}
use arvern_ips.Sweep.Lint.Verdict.{is_clean, lint_exit-eq-zero}
use arvern_ips.Sweep.Manifest.{core_path, flist_path, manifest_main}
use arvern_ips.Sweep.Manifest.Agreement.{Agree, manifest_main-eq-zero}
use arvern_ips.Sweep.PlicSweep
use arvern_ips.Sweep.PlicSweep.Strict.{is_pass, exit_status-all_pass}
use arvern_ips.Sweep.Plic
use arvern_ips.Sweep.Aclint.{mandatory_cover_bins, sweep_only_cover_bins, sim_configs}

abbrev hardened : Config
hardened = record {
  label = codes "sync";
  top = codes "ahb_plic";
  params = (codes "ARST_EN", number 1) ∷ (codes "NUM_HARTS", number 2) ∷ [];
}

abbrev table : List Config
table = record { label = codes "default"; top = codes "ahb_plic"; params = [] } ∷ hardened ∷ []

resolve-show_example :
    ((c : Config) → get_elem? table 1 ≡ some c → resolve table (some (show 2)) ≡ ok c)
    × (length table ≤ 1 → resolve table (some (show 2)) ≡ err (out_of_range 2 (length table)))
resolve-show_example = resolve-show table 1

table-IsDistinct : IsDistinct (labels table)
unfolding contains list_beq
table-IsDistinct = (refl, (refl, tt))

sync-is_number : is_number (codes "sync") ≡ false
unfolding is_number is_digit
sync-is_number = refl

resolve-label_example :
    ((i : ℕ) (c : Config)
      → get_elem? table i ≡ some c
      → c.label ≡ codes "sync"
      → resolve table (some (codes "sync")) ≡ ok c)
    × (contains (labels table) (codes "sync") ≡ false
        → resolve table (some (codes "sync")) ≡ err (unknown_config (codes "sync") (labels table)))
resolve-label_example = resolve-label table (codes "sync") table-IsDistinct sync-is_number

hardened-IsParamDict : IsParamDict hardened.params
unfolding keys contains list_beq
hardened-IsParamDict = record { distinct = (refl, (refl, tt)); named = refl }

harts-named : is_name (codes "NUM_HARTS") ≡ true
unfolding contains
harts-named = refl

write_params-tcl_value_example :
    tcl_value (rtl_param (codes "NUM_HARTS")) (write_params hardened false)
    ≡ show_all (
        if eqb (codes "NUM_HARTS") (codes "ASYNC_RST_EN")
          && not (has_key (codes "ASYNC_RST_EN") hardened.params)
        then lookup (codes "ARST_EN") hardened.params
        else lookup (codes "NUM_HARTS") hardened.params)
write_params-tcl_value_example =
    write_params-tcl_value hardened hardened-IsParamDict (codes "NUM_HARTS") harts-named

one_spelling :
    (has_key (codes "ARST_EN") hardened.params && has_key (codes "ASYNC_RST_EN") hardened.params)
    ≡ false
unfolding has_key list_beq
one_spelling = refl

harts-ne-arst : codes "NUM_HARTS" ≢ codes "ARST_EN"
harts-ne-arst h = cc

harts-ne-async : codes "NUM_HARTS" ≢ codes "ASYNC_RST_EN"
harts-ne-async h = cc

write_params_sync_example :
    (tcl_value (codes "RTL_PARAM_ASYNC_RST_EN") (write_params hardened true) ≡ some (codes "0"))
    × (tcl_value (codes "RTL_PARAM_ARST_EN") (write_params hardened true)
        ≡ (if has_key (codes "ARST_EN") hardened.params then some (codes "0") else none))
    × (tcl_value (rtl_param (codes "NUM_HARTS")) (write_params hardened true)
        ≡ tcl_value (rtl_param (codes "NUM_HARTS")) (write_params hardened false))
write_params_sync_example =
    write_params_sync hardened hardened-IsParamDict (codes "NUM_HARTS") one_spelling harts-named
      harts-ne-arst harts-ne-async

write_params-arguments_example :
    (tcl_value (codes "ELABORATE_PARAMS") (write_params hardened true)
      ≡ some (quoted (arguments (effective hardened.params true))))
    × (contains
          (arguments (effective hardened.params true))
          (codes "NUM_HARTS" ++ (b'=' ∷ codes "2"))
        ≡ holds
            (tcl_value (rtl_param (codes "NUM_HARTS")) (write_params hardened true))
            (codes "2"))
write_params-arguments_example =
    write_params-arguments hardened true (codes "NUM_HARTS") (codes "2") hardened-IsParamDict
      harts-named harts-ne-async

entries-resolve_example :
    (cs : List Config) × (entries ahb_plic ≡ ok cs)
    × (length cs ≡ length (configs ahb_plic))
    × ((i : ℕ) (c : Config) → get_elem? cs i ≡ some c → resolve cs (some c.label) ≡ ok c)
entries-resolve_example = entries-resolve ahb_plic

abbrev logs : List (List Text)
logs = (codes "COVERAGE HIT: lf_tick" ∷ codes "TEST PASSED" ∷ []) ∷ []

report-missing_example :
    (contains
        (report mandatory_cover_bins sweep_only_cover_bins logs true).missing
        (codes "lf_tick")
      ≡ (contains mandatory_cover_bins (codes "lf_tick")
          && (not (is_hit logs (codes "lf_tick"))
              && not (true && contains sweep_only_cover_bins (codes "lf_tick")))))
    × (contains
          (report mandatory_cover_bins sweep_only_cover_bins logs true).expected
          (codes "lf_tick")
        ≡ (contains mandatory_cover_bins (codes "lf_tick")
            && (not (is_hit logs (codes "lf_tick"))
                && (true && contains sweep_only_cover_bins (codes "lf_tick")))))
report-missing_example =
    report-missing mandatory_cover_bins sweep_only_cover_bins logs true (codes "lf_tick")

-- A tool chain that compiles everything and whose simulations pass.
abbrev tools : Tools
tools = record {
  has_stimulus = λ t. true;
  seed = λ c t. 7;
  submit_file = codes "submit.f";
  compile = λ cmd. (0, []);
  simulate = λ cmd. codes "COVERAGE HIT: lf_tick\nSIMULATION PASSED\n";
}

exit_status-eq-zero_example :
    (exit_status tools mandatory_cover_bins sweep_only_cover_bins sim_configs ≡ 0) ↔ (
      (all (λ r. is_good r.status) (run_all tools sim_configs) ≡ true)
      × (all (is_hit (log_lines (run_all tools sim_configs))) mandatory_cover_bins ≡ true))
exit_status-eq-zero_example =
    exit_status-eq-zero tools mandatory_cover_bins sweep_only_cover_bins sim_configs

exit_status-all_pass_example :
    (PlicSweep.exit_status tools Plic.mandatory_cover_bins Plic.sim_configs ≡ 0) ↔ (
      (all is_pass (PlicSweep.run_all tools Plic.sim_configs) ≡ true)
      × (all
            (is_hit (log_lines (PlicSweep.run_all tools Plic.sim_configs)))
            Plic.mandatory_cover_bins
          ≡ true))
exit_status-all_pass_example = exit_status-all_pass tools Plic.mandatory_cover_bins Plic.sim_configs

abbrev overrides : List (Text × ParamDict)
overrides = (codes "default", []) ∷ (codes "nh2", (codes "NUM_HARTS", number 2) ∷ []) ∷ []

abbrev lint_runner : List Text → ℕ
lint_runner cmd = length cmd

lint_exit-eq-zero_example :
    let rs = lint_all lint_runner (codes "ahb_plic") (codes "w.vlt") (codes "s.f") overrides in
    ((lint_exit rs ≡ 0) ↔ (
      all
        (λ c. lint_runner (lint_cmd (codes "ahb_plic") (codes "w.vlt") (codes "s.f") c.1) == 0)
        overrides
      ≡ true))
    × (count_failures 0 rs + length (keep_if is_clean rs) ≡ length rs)
lint_exit-eq-zero_example =
    lint_exit-eq-zero lint_runner (codes "ahb_plic") (codes "w.vlt") (codes "s.f") overrides

-- A directory whose two files are there.
abbrev ip_files : Text → Option (List Text)
ip_files p = some (
    if ends_with p (codes ".core")
    then codes "  rtl:" ∷ codes "    files:" ∷ codes "      - rtl/a.v" ∷ []
    else codes "a.v // the top" ∷ [])

manifest_main-eq-zero_example :
    ((manifest_main ip_files (codes "/w/ahb_plic")).0 ≡ 0)
    ↔ Agree
        (ip_files (core_path (codes "/w/ahb_plic")))
        (ip_files (flist_path (codes "/w/ahb_plic")))
manifest_main-eq-zero_example = manifest_main-eq-zero ip_files (codes "/w/ahb_plic")
